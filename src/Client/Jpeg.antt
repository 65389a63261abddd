-- ===== src/Client/Jpeg.antt =====
-- Frames cut out of a byte stream by their JPEG marks, client/wt_client.c: `extract_jpegs`. The
-- buffer `b[0 .. L)` is a list, and the frames are those that the callback is given, in order.
pub mod Laws
pub mod Steps
pub mod Chunks
mod Runs
use m_quic.Prelude.{ℕ, zero, suc, ◌+◌, ◌-◌, ◌*◌, ltb, leb, ◌==◌, if◌then◌else◌, ◌&&◌}
use m_quic.Prelude.{List, [], ◌∷◌, length, take, drop, Option, none, some}

-- The index of the first mark `0xFF, m`, or the last index without one.
unfoldable pub find_mark : ℕ → List ℕ → ℕ
find_mark m [] = 0
find_mark m (x ∷ []) = 0
find_mark m (x ∷ y ∷ r) =
    let later = find_mark m (y ∷ r) in if x == 0xFF && y == m then 0 else suc later

-- Without a start at most the last 64 KiB are kept.
unfoldable pub keep_tail : List ℕ → List ℕ
keep_tail b = if ltb (64 * 1024) (length b) then drop (length b - 64 * 1024) b else b

-- The loop, with a number of rounds.
unfoldable pub extract_loop : ℕ → List ℕ → Option (List (List ℕ) × List ℕ)
extract_loop zero b = none
extract_loop (suc n) b =
    let s = find_mark 0xD8 b in
    let b1 = drop s b in
    let e : ℕ = 2 + find_mark 0xD9 (drop 2 b1) in
    let rest = extract_loop n (drop (e + 2) b1) in
    if leb (length b) (s + 1)
    then some ([], keep_tail b)
    else if leb (length b1) (e + 1)
    then some ([], b1)
    else (elim rest [ none ↦ none | some (frames, left) ↦ some (take (e + 2) b1 ∷ frames, left) ])

-- The frames, and what is left in the buffer. The rounds are enough for every buffer.
unfoldable pub extract_jpegs : List ℕ → List (List ℕ) × List ℕ
extract_jpegs b = elim (extract_loop (suc (length b)) b) [ none ↦ ([], b) | some r ↦ r ]
