-- ===== src/Alpn/Laws.antt =====
-- Both selectors choose the first `h3`, and the first path that fits gets the request.
use m_quic.Prelude.{
  ℕ, suc, ◌+◌, ◌<◌, ◌≡◌, refl, ◌∙◌, sym, ap, arith, true, false, List, [], ◌∷◌, ◌++◌, length, take,
  drop, All,
}
use m_quic.Prelude.{
  minus_one, some, Bool-cases, inl, inr, ◌⊎◌, get_or, bytes_eq, bytes_eq→eq, bytes_eq_refl,
  take-append, take-append-drop, length-append,
}
use m_quic.Alpn.{h3, is_h3, my_alpn_select_fn, alpn_select, PathItem, is_prefix, find_handler}
use m_quic.Alpn.{h3zero_server_parse_path}

select_from :
    (xs : List (List ℕ)) (i : ℕ)
    → (k : ℕ) × (my_alpn_select_fn xs i ≡ i + k)
      × (alpn_select xs i ≡ i + k)
      × (All (λ x. is_h3 x ≡ false) (take k xs))
      × (((k < length xs) × (get_or xs k [] ≡ h3)) ⊎ (k ≡ length xs))
unfolding my_alpn_select_fn alpn_select
select_from [] i = (0, omega arith, omega arith, tt, inr refl)
select_from (x ∷ xs) i = elim (Bool-cases (is_h3 x)) [
  | inl hit ↦ (
    0,
    ground (arith, hit),
    ground (arith, hit),
    tt,
    inl (omega arith, bytes_eq→eq x h3 (ground (arith, hit))),
  )
  | inr miss ↦
      let (k, e1, e2, before, at) = select_from xs (i + 1) in
      (
        suc k,
        ground (arith, miss, e1),
        ground (arith, miss, e2),
        (miss, before),
        elim at [ inl (lt, e) ↦ inl (omega arith, e) | inr e ↦ inr (omega (arith, e)) ],
      )
]

-- The server's and the client's selector choose alike: the index of the first protocol that is
-- exactly `h3`, with none before it, or the number of protocols if there is none.
pub alpn_select_first :
    (xs : List (List ℕ))
    → (k : ℕ) × (my_alpn_select_fn xs 0 ≡ k)
      × (alpn_select xs 0 ≡ k)
      × (All (λ x. is_h3 x ≡ false) (take k xs))
      × (((k < length xs) × (get_or xs k [] ≡ h3)) ⊎ (k ≡ length xs))
alpn_select_first xs =
    let (k, e1, e2, before, at) = select_from xs 0 in
    (k, omega (arith, e1), omega (arith, e2), before, at)

prefix_append : (p rest : List ℕ) → is_prefix p (p ++ rest) ≡ true
prefix_append p rest =
    let e = take-append (length p) p rest refl in
    let same : bytes_eq (take (length p) (p ++ rest)) p ≡ true = rw e (bytes_eq_refl p) in
    ground (arith, same, length-append p rest)

prefix_split : (p path : List ℕ) → is_prefix p path ≡ true → path ≡ p ++ drop (length p) path
prefix_split p path h =
    let e : take (length p) path ≡ p = bytes_eq→eq (take (length p) path) p (ground (arith, h)) in
    sym (take-append-drop (length p) path) ∙ ap (λ (t : List ℕ). t ++ drop (length p) path) e

-- A request goes to the first item of the table whose path its own path begins with: an item whose
-- path it begins with gets it unless an earlier one does, and without such an item the answer is -1
-- and nothing is done.
pub parse_path_first :
    {W : Type 0} (front back : List (PathItem W)) (item : PathItem W) (rest : List ℕ) (w : W)
    → All (λ x. is_prefix x.path (item.path ++ rest) ≡ false) front
    → (h3zero_server_parse_path (some (front ++ (item ∷ back))) (some (item.path ++ rest)) w
        ≡ item.path_callback w)
      × (h3zero_server_parse_path (some front) (some (item.path ++ rest)) w ≡ (minus_one, w))
unfolding h3zero_server_parse_path find_handler
parse_path_first [] back item rest w v = (rw (prefix_append item.path rest) refl, refl)
parse_path_first (x ∷ front) back item rest w v =
    let (e1, e2) = parse_path_first front back item rest w v.1 in (rw (v.0) e1, rw (v.0) e2)
