-- ===== src/Client/Jpeg/Steps.antt =====
-- How the search for images, `extract_jpegs` of client/wt_client.c, goes on from a buffer.
use m_quic.Prelude.{
  ℕ, zero, suc, ◌+◌, ◌-◌, ◌≤◌, ◌<◌, ◌≡◌, ◌∙◌, sym, ap, arith, leb, if◌then◌else◌, if-true, if-false,
}
use m_quic.Prelude.{
  List, [], ◌∷◌, ◌++◌, length, take, drop, some, inl, inr, Bool-cases, length-drop, drop-drop,
}
use m_quic.Client.Jpeg.{find_mark, keep_tail, extract_loop, extract_jpegs}
use m_quic.Client.Jpeg.Laws.{extract_loop_ends, extract_loop_more, extract_jpegs-loop}

abbrev pub frames : List ℕ → List (List ℕ)
frames b = (extract_jpegs b).0

-- The frames of a buffer that begins with a start mark.
abbrev pub from_start : List ℕ → List (List ℕ)
from_start b1 =
    let e : ℕ = 2 + find_mark 0xD9 (drop 2 b1) in
    if leb (length b1) (e + 1) then [] else take (e + 2) b1 ∷ frames (drop (e + 2) b1)

pub find_mark_past :
    (m : ℕ) (xs r : List ℕ) → length xs ≤ find_mark m xs + 1 → length xs ≤ find_mark m (xs ++ r) + 1
unfolding find_mark
find_mark_past m [] r h = omega arith
find_mark_past m (x ∷ []) r h = omega arith
find_mark_past m (x ∷ y ∷ xs) r h = ground (arith, find_mark_past m (y ∷ xs) r)

find_mark-drop :
    (m k : ℕ) (b : List ℕ) → k ≤ find_mark m b → find_mark m (drop k b) ≡ find_mark m b - k
unfolding find_mark
find_mark-drop m zero b h = omega arith
find_mark-drop m (suc k) [] h = absurd (omega arith)
find_mark-drop m (suc k) (x ∷ []) h = absurd (omega arith)
find_mark-drop m (suc k) (x ∷ y ∷ r) h = ground (arith, find_mark-drop m k (y ∷ r))

enough_rounds : (b : List ℕ) → extract_loop (suc (length b)) b ≡ some (extract_jpegs b)
enough_rounds b =
    let (fs, left, eq, le) = extract_loop_ends (suc (length b)) b (omega arith) in
    eq ∙ ap some (sym (extract_jpegs-loop b (fs, left) eq))

-- The three ways in which a search goes on.
pub extract_none :
    (b : List ℕ) → length b ≤ find_mark 0xD8 b + 1 → extract_jpegs b ≡ ([], keep_tail b)
unfolding extract_loop
extract_none b h = extract_jpegs-loop b ([], keep_tail b) (ground arith)

pub extract_half :
    (b : List ℕ)
    → find_mark 0xD8 b + 1 < length b
    → let b1 = drop (find_mark 0xD8 b) b in
      length b1 ≤ find_mark 0xD9 (drop 2 b1) + 3 → extract_jpegs b ≡ ([], b1)
unfolding extract_loop
extract_half b go h = extract_jpegs-loop b ([], drop (find_mark 0xD8 b) b) (ground arith)

pub extract_whole :
    (b : List ℕ)
    → find_mark 0xD8 b + 1 < length b
    → let b1 = drop (find_mark 0xD8 b) b in
      let e : ℕ = 2 + find_mark 0xD9 (drop 2 b1) in
      e + 1 < length b1
      → extract_jpegs b
        ≡ (take (e + 2) b1 ∷ frames (drop (e + 2) b1), (extract_jpegs (drop (e + 2) b1)).1)
unfolding extract_loop
extract_whole b go h =
    let b1 = drop (find_mark 0xD8 b) b in
    let e : ℕ = 2 + find_mark 0xD9 (drop 2 b1) in
    let b2 = drop (e + 2) b1 in
    let shorter : length b2 < length b =
      omega (arith, h, length-drop (e + 2) b1, length-drop (find_mark 0xD8 b) b) in
    let rest : extract_loop (length b) b2 ≡ some (extract_jpegs b2) =
      extract_loop_more (length b) (suc (length b2)) b2 shorter (omega arith) ∙ enough_rounds b2 in
    let whole : extract_loop (suc (length b)) b
        ≡ some (take (e + 2) b1 ∷ frames b2, (extract_jpegs b2).1) =
      ground (arith, go, h, rest) in
    extract_jpegs-loop b (take (e + 2) b1 ∷ frames b2, (extract_jpegs b2).1) whole

frames_none : (b : List ℕ) → length b ≤ find_mark 0xD8 b + 1 → frames b ≡ []
frames_none b h = ap (λ (r : List (List ℕ) × List ℕ). r.0) (extract_none b h)

pub frames_start :
    (b : List ℕ)
    → find_mark 0xD8 b + 1 < length b
    → frames b ≡ from_start (drop (find_mark 0xD8 b) b)
frames_start b go =
    let b1 = drop (find_mark 0xD8 b) b in
    elim (Bool-cases (leb (length b1) (2 + find_mark 0xD9 (drop 2 b1) + 1))) [
      | inl half ↦
          ap (λ (r : List (List ℕ) × List ℕ). r.0) (extract_half b go (ground (arith, half)))
          ∙ sym (if-true _ _ half)
      | inr whole ↦
          ap (λ (r : List (List ℕ) × List ℕ). r.0) (extract_whole b go (ground (arith, whole)))
          ∙ sym (if-false _ _ whole)
    ]

-- What stands before the first start mark, or without one before the last byte, makes no difference.
pub frames-drop : (k : ℕ) (b : List ℕ) → k ≤ find_mark 0xD8 b → frames (drop k b) ≡ frames b
frames-drop k b h =
    let s = find_mark 0xD8 b in
    let moved = find_mark-drop 0xD8 k b h in
    let size = length-drop k b in
    elim (Bool-cases (leb (length b) (s + 1))) [
      | inl over ↦
          frames_none (drop k b) (ground (arith, over, moved, size))
          ∙ sym (frames_none b (ground (arith, over)))
      | inr go ↦
          frames_start (drop k b) (ground (arith, go, moved, size))
          ∙ ap from_start
              (ap (λ (n : ℕ). drop n (drop k b)) moved ∙ drop-drop (s - k) k s b (omega (arith, h)))
          ∙ sym (frames_start b (ground (arith, go)))
    ]
