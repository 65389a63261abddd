-- ===== src/WebTransport/Bounds.antt =====
-- What `picowt_receive_capsule` of src/pico_webtransport.c reports of a capsule, however it is cut or
-- forged: a text within the input, and an error code that is read within it.
use m_quic.Prelude.{ℕ, zero, suc, ◌+◌, ◌-◌, ◌≤◌, ◌≡◌, refl, ◌∙◌, sym, ap, arith}
use m_quic.Prelude.{pos, minus_one, List, [], ◌∷◌, length, take, drop}
use m_quic.Prelude.{none, some, ◌⊎◌, inl, inr, Option-cases, length-take, length-drop, drop-nil}
use m_quic.Prelude.{◌<◌, ◌^◌, ◌==◌, ℤ, All, All-drop, Bool-cases}
use m_quic.Varint.{IsByte, picowt_varint_decode}
use m_quic.WebTransport.{read_u32}
use m_quic.WebTransport.Receive.{read_u32-bytes}
use m_quic.WebTransport.{Capsule, no_capsule}
use m_quic.WebTransport.{capsule_body, picowt_receive_capsule}

-- The part of a capsule's body that is its text.
body_text :
    (t l : ℕ) (p : List ℕ)
    → ((capsule_body t l p).0 ≡ pos 0)
        × (((capsule_body t l p).1.error_msg ≡ none)
            ⊎ (((capsule_body t l p).1.error_msg ≡ some (take (l - 4) (drop 4 p)))
                × ((capsule_body t l p).1.error_msg_len ≡ l - 4)
                × (l ≤ length p)
                × (4 ≤ l)))
      ⊎ ((capsule_body t l p).0 ≡ minus_one) × ((capsule_body t l p).1 ≡ no_capsule)
unfolding capsule_body
body_text t l p = ground arith

drop-drop : (a b : ℕ) (xs : List ℕ) → drop a (drop b xs) ≡ drop (b + a) xs
drop-drop a zero xs = let e : zero + a ≡ a = omega arith in rw e refl
drop-drop a (suc b) [] = drop-nil a ∙ sym (drop-nil (suc b + a))
drop-drop a (suc b) (x ∷ xs) =
    let e : suc b + a ≡ suc (b + a) = omega arith in rw e (drop-drop a b xs)

stretch :
    (n1 n2 l : ℕ) (p msg : List ℕ)
    → l ≤ length (drop n2 (drop n1 p))
    → 4 ≤ l
    → take (l - 4) (drop 4 (drop n2 (drop n1 p))) ≡ msg
    → (length msg ≡ l - 4)
      × (n1 + n2 + 4 + length msg ≤ length p)
      × (msg ≡ take (length msg) (drop (n1 + n2 + 4) p))
stretch n1 n2 l p msg h h4 e =
    let body = drop n2 (drop n1 p) in
    let at : drop 4 body ≡ drop (n1 + n2 + 4) p =
      drop-drop 4 n2 (drop n1 p)
      ∙ drop-drop (n2 + 4) n1 p
      ∙ ap (λ (k : ℕ). drop k p) (omega arith) in
    let len : length msg ≡ l - 4 =
      ap length (sym e) ∙ length-take (l - 4) (drop 4 body) ∙ omega (arith, length-drop 4 body) in
    (
      len,
      omega (arith, length-drop n2 (drop n1 p), length-drop n1 p, len),
      sym e
          ∙ ap (λ (k : ℕ). take k (drop 4 body)) (sym len)
          ∙ ap (λ (t : List ℕ). take (length msg) t) at,
    )

body_bounds :
    (t l n1 n2 : ℕ) (p msg : List ℕ)
    → (capsule_body t l (drop n2 (drop n1 p))).0 ≡ pos 0
    → (capsule_body t l (drop n2 (drop n1 p))).1.error_msg ≡ some msg
    → (n : ℕ) × (n + length msg ≤ length p)
      × (msg ≡ take (length msg) (drop n p))
      × ((capsule_body t l (drop n2 (drop n1 p))).1.error_msg_len ≡ length msg)
body_bounds t l n1 n2 p msg e em = elim (body_text t l (drop n2 (drop n1 p))) [
  | inl (_, inl nothing) ↦ absurd (ground (arith, nothing, em))
  | inl (_, inr (text, len, h, h4)) ↦
      let (n, fits, same) = stretch n1 n2 l p msg h h4 (ground (arith, text, em)) in
      (n1 + n2 + 4, fits, same, len ∙ sym n)
  | inr (bad, _) ↦ absurd (ground (arith, bad, e))
]

receive_parts :
    (p : List ℕ) (c r : Capsule)
    → picowt_receive_capsule (some p) (some c) ≡ (pos 0, some r)
    → (t : ℕ) × (l : ℕ) × (n1 : ℕ) × (n2 : ℕ) × ((capsule_body t l (drop n2 (drop n1 p))).0 ≡ pos 0)
      × ((capsule_body t l (drop n2 (drop n1 p))).1 ≡ r)
unfolding picowt_receive_capsule
receive_parts p c r e = elim (Option-cases (picowt_varint_decode p)) [
  | inl bad ↦ absurd (ground (arith, bad, e))
  | inr ((t, n1), e1) ↦ elim (Option-cases (picowt_varint_decode (drop n1 p))) [
    | inl bad ↦ absurd (ground (arith, e1, bad, e))
    | inr ((l, n2), e2) ↦ (t, l, n1, n2, ground (arith, e1, e2, e), ground (arith, e1, e2, e))
  ]
]

-- When the receiver answers 0 with a text in the capsule, that text is a stretch of the input, whole
-- and in its bounds, and the reported length is its length.
pub receive_bounds :
    (p msg : List ℕ) (c r : Capsule)
    → picowt_receive_capsule (some p) (some c) ≡ (pos 0, some r)
    → r.error_msg ≡ some msg
    → (n : ℕ) × (n + length msg ≤ length p)
      × (msg ≡ take (length msg) (drop n p))
      × (r.error_msg_len ≡ length msg)
receive_bounds p msg c r e em =
    let (t, l, n1, n2, ok, same) = receive_parts p c r e in
    let (n, fits, at, len) =
      body_bounds t l n1 n2 p msg ok (ap (λ (x : Capsule). x.error_msg) same ∙ em) in
    (n, fits, at, ap (λ (x : Capsule). x.error_msg_len) (sym same) ∙ len)

read_u32_fits : (p : List ℕ) → All IsByte p → 4 ≤ length p → read_u32 p < 2 ^ 32
read_u32_fits (a ∷ b ∷ c ∷ d ∷ p) (ha, (hb, (hc, (hd, hp)))) h =
    omega (arith, read_u32-bytes a b c d p ha hb hc hd)
read_u32_fits (a ∷ b ∷ c ∷ []) bytes h = absurd (omega arith)
read_u32_fits (a ∷ b ∷ []) bytes h = absurd (omega arith)
read_u32_fits (a ∷ []) bytes h = absurd (omega arith)
read_u32_fits [] bytes h = absurd (omega arith)

body_code : (t l : ℕ) (p : List ℕ) → All IsByte p → (capsule_body t l p).1.error_code < 2 ^ 32
unfolding capsule_body
body_code t l p bytes = ground (arith, read_u32_fits p bytes)

-- For an input of bytes, a capsule whose error code is a 32-bit number has one afterwards as well,
-- whatever the receiver answers: the error code is never read past the end of the input, which would
-- not give a 32-bit number here.
receive_code :
    (p : List ℕ) (c r : Capsule) (ret : ℤ)
    → All IsByte p
    → c.error_code < 2 ^ 32
    → picowt_receive_capsule (some p) (some c) ≡ (ret, some r)
    → r.error_code < 2 ^ 32
unfolding picowt_receive_capsule
receive_code p c r ret bytes small e = elim (Bool-cases (length p == 0)) [
  | inl nothing ↦ ground (arith, nothing, e, small)
  | inr some_bytes ↦ elim (Option-cases (picowt_varint_decode p)) [
    | inl bad ↦ ground (arith, some_bytes, bad, e)
    | inr ((t, n1), e1) ↦ elim (Option-cases (picowt_varint_decode (drop n1 p))) [
      | inl bad ↦ ground (arith, some_bytes, e1, bad, e)
      | inr ((l, n2), e2) ↦
          let left = All-drop IsByte n2 (drop n1 p) (All-drop IsByte n1 p bytes) in
          ground (arith, some_bytes, e1, e2, e, body_code t l (drop n2 (drop n1 p)) left)
    ]
  ]
]
