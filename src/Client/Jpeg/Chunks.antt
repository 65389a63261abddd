-- ===== src/Client/Jpeg/Chunks.antt =====
-- The search for images, `extract_jpegs` of client/wt_client.c, over a stream that is cut into chunks.
use m_quic.Prelude.{
  ℕ, zero, suc, ◌+◌, ◌-◌, ◌≤◌, ◌<◌, ◌≡◌, refl, ◌∙◌, sym, ap, arith, ltb, leb, false, if-true,
  if-false,
}
use m_quic.Prelude.{
  List, [], ◌∷◌, ◌++◌, length, take, drop, inl, inr, Bool-cases, length-append, length-drop,
  drop_within, take_within, append_assoc, append-nil,
}
use m_quic.Client.Jpeg.{find_mark, keep_tail, extract_jpegs}
use m_quic.Client.Jpeg.Laws.{find_mark-append, flat}
use m_quic.Client.Jpeg.Steps.{
  frames, from_start, find_mark_past, extract_none, extract_half, extract_whole, frames_start,
  frames-drop,
}

keep_tail-drop : (b : List ℕ) → (k : ℕ) × (keep_tail b ≡ drop k b) × (k ≤ length b - 1)
unfolding keep_tail
keep_tail-drop b = elim (Bool-cases (ltb 65536 (length b))) [
  | inl long ↦ (length b - 65536, if-true _ _ long, omega arith)
  | inr short ↦ (0, if-false _ _ short, omega arith)
]

module _ (b c : List ℕ) where
  -- One search over `b` and `c`, and a search over `b` with one over what it leaves and `c`.
  abbrev Splits : Type 0
  Splits = frames (b ++ c) ≡ frames b ++ frames ((extract_jpegs b).1 ++ c)

  Splits-by :
      (r : List (List ℕ) × List ℕ)
      → extract_jpegs b ≡ r
      → frames (b ++ c) ≡ r.0 ++ frames (r.1 ++ c)
      → Splits
  Splits-by r e h = h ∙ ap (λ (x : List (List ℕ) × List ℕ). x.0 ++ frames (x.1 ++ c)) (sym e)

  none_step : length b ≤ find_mark 0xD8 b + 1 → Splits
  none_step h =
      let (k, kept, small) = keep_tail-drop b in
      let past = find_mark_past 0xD8 b c h in
      Splits-by ([], keep_tail b) (extract_none b h)
        (sym (frames-drop k (b ++ c) (omega (arith, past, small)))
          ∙ ap frames (drop_within k b c (omega (arith, small)) ∙ ap (λ l. l ++ c) (sym kept)))

  half_step :
      find_mark 0xD8 b + 1 < length b
      → (let b1 = drop (find_mark 0xD8 b) b in length b1 ≤ find_mark 0xD9 (drop 2 b1) + 3)
      → Splits
  half_step go h =
      let s = find_mark 0xD8 b in
      let same : find_mark 0xD8 (b ++ c) ≡ s = find_mark-append 0xD8 b c (omega arith) in
      Splits-by ([], drop s b) (extract_half b go h)
        (sym (frames-drop s (b ++ c) (omega (arith, same)))
          ∙ ap frames (drop_within s b c (omega arith)))

  from_start-append :
      (b1 : List ℕ)
      → 2 ≤ length b1
      → find_mark 0xD9 (drop 2 b1) + 3 < length b1
      → let e : ℕ = 2 + find_mark 0xD9 (drop 2 b1) in
        from_start (b1 ++ c) ≡ take (e + 2) b1 ∷ frames (drop (e + 2) b1 ++ c)
  from_start-append b1 two h =
      let e : ℕ = 2 + find_mark 0xD9 (drop 2 b1) in
      let same : find_mark 0xD9 (drop 2 b1 ++ c) ≡ find_mark 0xD9 (drop 2 b1) =
        find_mark-append 0xD9 (drop 2 b1) c (omega (arith, h, length-drop 2 b1)) in
      let long : leb (length (b1 ++ c)) (e + 1) ≡ false = ground (arith, h, length-append b1 c) in
      rw
        (
          drop_within 2 b1 c two,
          same,
          long,
          take_within (e + 2) b1 c (omega (arith, h)),
          drop_within (e + 2) b1 c (omega (arith, h)),
        )
        refl

  whole_step :
      find_mark 0xD8 b + 1 < length b
      → let b1 = drop (find_mark 0xD8 b) b in
        let e : ℕ = 2 + find_mark 0xD9 (drop 2 b1) in
        let b2 = drop (e + 2) b1 in
        e + 1 < length b1
        → frames (b2 ++ c) ≡ frames b2 ++ frames ((extract_jpegs b2).1 ++ c)
        → Splits
  whole_step go h ih =
      let s = find_mark 0xD8 b in
      let b1 = drop s b in
      let e : ℕ = 2 + find_mark 0xD9 (drop 2 b1) in
      let b2 = drop (e + 2) b1 in
      let same : find_mark 0xD8 (b ++ c) ≡ s = find_mark-append 0xD8 b c (omega arith) in
      let long : s + 1 < length (b ++ c) = omega (arith, length-append b c) in
      Splits-by (take (e + 2) b1 ∷ frames b2, (extract_jpegs b2).1) (extract_whole b go h)
        (frames_start (b ++ c) (rw same long)
          ∙ ap from_start (ap (λ (n : ℕ). drop n (b ++ c)) same ∙ drop_within s b c (omega arith))
          ∙ from_start-append b1 (omega (arith, h)) (omega (arith, h))
          ∙ ap (λ (l : List (List ℕ)). take (e + 2) b1 ∷ l) ih)

splits_below : (n : ℕ) (b c : List ℕ) → length b < n → Splits b c
splits_below zero b c h = absurd (omega arith)
splits_below (suc n) b c h =
    let s = find_mark 0xD8 b in
    let b1 = drop s b in
    let e : ℕ = 2 + find_mark 0xD9 (drop 2 b1) in
    let b2 = drop (e + 2) b1 in
    elim (Bool-cases (leb (length b) (s + 1))) [
      | inl over ↦ none_step b c (ground (arith, over))
      | inr go ↦ elim (Bool-cases (leb (length b1) (e + 1))) [
        | inl half ↦ half_step b c (ground (arith, go)) (ground (arith, half))
        | inr whole ↦
            whole_step b c (ground (arith, go)) (ground (arith, whole))
              (splits_below n b2 c (ground (arith, whole, length-drop (e + 2) b1, length-drop s b)))
      ]
    ]

-- The client's searches as the chunks of a stream come in: each takes what the one before left and
-- the next chunk.
unfoldable pub search_chunks : List ℕ → List (List ℕ) → List (List ℕ)
search_chunks left [] = []
search_chunks left (c ∷ cs) =
    let (found, left1) = extract_jpegs (left ++ c) in found ++ search_chunks left1 cs

search_from :
    (left : List ℕ) (c : List ℕ) (cs : List (List ℕ))
    → search_chunks left (c ∷ cs) ≡ (extract_jpegs (left ++ flat (c ∷ cs))).0
unfolding search_chunks
search_from left c [] =
    append-nil (frames (left ++ c)) ∙ ap (λ (l : List ℕ). frames (left ++ l)) (sym (append-nil c))
search_from left c (d ∷ cs) =
    let b = left ++ c in
    ap (λ (l : List (List ℕ)). frames b ++ l) (search_from (extract_jpegs b).1 d cs)
    ∙ sym (splits_below (suc (length b)) b (flat (d ∷ cs)) (omega arith))
    ∙ ap frames (append_assoc left c (flat (d ∷ cs)))

-- However a stream is cut into chunks, the searches over what is left and the next chunk find
-- together the images that one search over the whole stream finds, in the same order and byte for
-- byte, also where a mark is cut and where bytes without a start mark are thrown away.
pub extract_jpegs-chunks :
    (chunks : List (List ℕ)) → search_chunks [] chunks ≡ (extract_jpegs (flat chunks)).0
unfolding search_chunks
extract_jpegs-chunks [] =
    ap (λ (r : List (List ℕ) × List ℕ). r.0) (sym (extract_none [] (omega arith)))
extract_jpegs-chunks (c ∷ cs) = search_from [] c cs
