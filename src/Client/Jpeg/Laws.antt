-- ===== src/Client/Jpeg/Laws.antt =====
-- The search for JPEG marks ends, keeps within its buffer and finds whole images.
use m_quic.Prelude.{ℕ, zero, suc, ◌+◌, ◌-◌, ◌≤◌, ◌<◌, ◌≡◌, refl, ◌∙◌, ap, arith, leb, false}
use m_quic.Prelude.{
  List, [], ◌∷◌, ◌++◌, length, take, drop, All, Option, none, some, inl, inr, Bool-cases,
  length-append, length-drop, take-append, drop-append, append_assoc,
}
use m_quic.Client.Jpeg.{find_mark, keep_tail, extract_loop, extract_jpegs}

pub find_mark-append :
    (m : ℕ) (xs r : List ℕ)
    → find_mark m xs + 2 ≤ length xs
    → find_mark m (xs ++ r) ≡ find_mark m xs
unfolding find_mark
find_mark-append m [] r h = absurd (omega arith)
find_mark-append m (x ∷ []) r h = absurd (omega arith)
find_mark-append m (x ∷ y ∷ xs) r h = ground (arith, find_mark-append m (y ∷ xs) r)

length-keep_tail : (b : List ℕ) → length (keep_tail b) ≤ length b
unfolding keep_tail
length-keep_tail b = ground (arith, length-drop (length b - 65536) b)

-- As many rounds as there are bytes, and one more, end the search, and what is left is no longer
-- than the buffer.
pub extract_loop_ends :
    (n : ℕ) (b : List ℕ)
    → length b < n
    → (frames : List (List ℕ)) × (left : List ℕ) × (extract_loop n b ≡ some (frames, left))
      × (length left ≤ length b)
unfolding extract_loop
extract_loop_ends zero b h = absurd (omega arith)
extract_loop_ends (suc n) b h =
    let s = find_mark 0xD8 b in
    let b1 = drop s b in
    let e : ℕ = 2 + find_mark 0xD9 (drop 2 b1) in
    let b2 = drop (e + 2) b1 in
    elim (Bool-cases (leb (length b) (s + 1))) [
      | inl over ↦ ([], keep_tail b, ground (arith, over), length-keep_tail b)
      | inr go ↦ elim (Bool-cases (leb (length b1) (e + 1))) [
        | inl half ↦ ([], b1, ground (arith, go, half), omega (arith, length-drop s b))
        | inr whole ↦
            let small : length b2 < n =
              ground (arith, whole, length-drop (e + 2) b1, length-drop s b) in
            let (frames, left, eq, le) = extract_loop_ends n b2 small in
            (
              take (e + 2) b1 ∷ frames,
              left,
              ground (arith, go, whole, eq),
              omega (arith, le, length-drop (e + 2) b1, length-drop s b),
            )
      ]
    ]

-- The rounds that are not needed do not matter.
pub extract_loop_more :
    (n m : ℕ) (b : List ℕ) → length b < n → length b < m → extract_loop n b ≡ extract_loop m b
unfolding extract_loop
extract_loop_more zero m b hn hm = absurd (omega arith)
extract_loop_more (suc n) zero b hn hm = absurd (omega arith)
extract_loop_more (suc n) (suc m) b hn hm =
    let s = find_mark 0xD8 b in
    let b1 = drop s b in
    let e : ℕ = 2 + find_mark 0xD9 (drop 2 b1) in
    let b2 = drop (e + 2) b1 in
    elim (Bool-cases (leb (length b1) (e + 1))) [
      | inl half ↦ rw half refl
      | inr whole ↦
          let shorter : length b2 < length b =
            ground (arith, whole, length-drop (e + 2) b1, length-drop s b) in
          rw (extract_loop_more n m b2 (omega (arith, shorter)) (omega (arith, shorter))) refl
    ]

pub extract_jpegs-loop :
    (b : List ℕ) (r : List (List ℕ) × List ℕ)
    → extract_loop (suc (length b)) b ≡ some r
    → extract_jpegs b ≡ r
unfolding extract_jpegs
extract_jpegs-loop b r e =
    ap (λ (o : Option (List (List ℕ) × List ℕ)). elim o [ none ↦ ([], b) | some x ↦ x ]) e

-- What is left of a buffer is no longer than the buffer, so the search never reads or writes outside.
pub extract_jpegs_left : (b : List ℕ) → length (extract_jpegs b).1 ≤ length b
extract_jpegs_left b =
    let (frames, left, e, le) = extract_loop_ends (suc (length b)) b (omega arith) in
    rw (extract_jpegs-loop b (frames, left) e) le

-- Byte strings one after the other.
abbrev pub flat : List (List ℕ) → List ℕ
flat [] = []
flat (x ∷ xs) = x ++ flat xs

-- A JPEG image as the client takes it: a start mark, and an end mark at its end and not before.
pub record IsJpeg (j : List ℕ) : Type 0 where
  pub body : List ℕ
  pub starts : j ≡ 0xFF ∷ 0xD8 ∷ body
  pub ends : find_mark 0xD9 body + 2 ≡ length body

round_lem :
    (b b2 frame : List ℕ) (n k : ℕ) (frames : List (List ℕ)) (left : List ℕ)
    → find_mark 0xD8 b ≡ 0
    → find_mark 0xD9 (drop 2 b) ≡ k
    → k + 4 ≤ length b
    → take (2 + k + 2) b ≡ frame
    → drop (2 + k + 2) b ≡ b2
    → extract_loop n b2 ≡ some (frames, left)
    → extract_loop (suc n) b ≡ some (frame ∷ frames, left)
unfolding extract_loop
round_lem b b2 frame n k frames left s0 e0 room front behind e =
    let some_bytes : leb (length b) (0 + 1) ≡ false = ground arith in
    let whole : leb (length b) (2 + k + 1) ≡ false = ground arith in
    rw (s0, e0, some_bytes, whole, behind, e, s0, e0, front) refl

starts_here : (b : List ℕ) → find_mark 0xD8 (0xFF ∷ 0xD8 ∷ b) ≡ 0
unfolding find_mark
starts_here b = refl

image_step :
    (body rest : List ℕ) (n : ℕ) (frames : List (List ℕ)) (left : List ℕ)
    → find_mark 0xD9 body + 2 ≡ length body
    → extract_loop n rest ≡ some (frames, left)
    → extract_loop (suc n) (0xFF ∷ 0xD8 ∷ (body ++ rest))
      ≡ some ((0xFF ∷ 0xD8 ∷ body) ∷ frames, left)
image_step body rest n frames left h e =
    let k = find_mark 0xD9 body in
    let image = 0xFF ∷ 0xD8 ∷ body in
    let size : 2 + k + 2 ≡ length image = omega (arith, h) in
    round_lem (image ++ rest) rest image n k frames left (starts_here (body ++ rest))
      (find_mark-append 0xD9 body rest (omega arith)) (omega (arith, h, length-append image rest))
      (take-append (2 + k + 2) image rest size) (drop-append (2 + k + 2) image rest size) e

-- An image at the front of the buffer is the first frame, byte for byte, and what is behind it is
-- searched as if it were alone.
pub extract_jpegs-image :
    (j rest : List ℕ)
    → IsJpeg j
    → extract_jpegs (j ++ rest) ≡ (j ∷ (extract_jpegs rest).0, (extract_jpegs rest).1)
extract_jpegs-image j rest v =
    let (frames, left, e, _) = extract_loop_ends (suc (length rest)) rest (omega arith) in
    let more = length-append (0xFF ∷ 0xD8 ∷ v.body) rest in
    let b = 0xFF ∷ 0xD8 ∷ (v.body ++ rest) in
    let first = image_step v.body rest (length b) frames left v.ends (
      extract_loop_more (length b) (suc (length rest)) rest (omega (arith, more)) (omega arith)
      ∙ e) in
    ap (λ (x : List ℕ). extract_jpegs (x ++ rest)) v.starts
    ∙ extract_jpegs-loop b ((0xFF ∷ 0xD8 ∷ v.body) ∷ frames, left) first
    ∙ rw (v.starts, extract_jpegs-loop rest (frames, left) e) refl

-- Images one after the other are all found, in order, and nothing else before them; what follows
-- the last one is searched as if it were alone.
pub extract_jpegs-images :
    (js : List (List ℕ)) (rest : List ℕ)
    → All IsJpeg js
    → extract_jpegs (flat js ++ rest) ≡ (js ++ (extract_jpegs rest).0, (extract_jpegs rest).1)
extract_jpegs-images [] rest v = refl
extract_jpegs-images (j ∷ js) rest v =
    ap (λ (b : List ℕ). extract_jpegs b) (append_assoc j (flat js) rest)
    ∙ extract_jpegs-image j (flat js ++ rest) v.0
    ∙ ap (λ (x : List (List ℕ) × List ℕ). (j ∷ x.0, x.1)) (extract_jpegs-images js rest v.1)
