-- ===== src/Prelude/Int.antt =====
-- C's `int` as an integer over the native numbers: return codes and indices that may be -1.
use Prim.Native.Nat.{ℕ}
use mathlib.Core.Bool.{Bool, false}
use m_quic.Prelude.Tests.{◌==◌, ltb}

-- `negsuc n` is -(n + 1).
pub data ℤ : Type 0 where
  pos : ℕ → ℤ
  negsuc : ℕ → ℤ

abbrev pub minus_one : ℤ
minus_one = negsuc 0

-- `r == 0`, the test for success of a C function.
abbrev pub is_ok : ℤ → Bool
is_ok (pos n) = n == 0
is_ok (negsuc n) = false

-- `0 <= i && i < n`
abbrev pub is_index : ℤ → ℕ → Bool
is_index (pos i) n = ltb i n
is_index (negsuc i) n = false

-- `i == k` for an index `k`
abbrev pub is_at : ℤ → ℕ → Bool
is_at (pos i) k = i == k
is_at (negsuc i) k = false

-- The index in an `int`, for use behind a test that it is one.
abbrev pub index_of : ℤ → ℕ
index_of (pos i) = i
index_of (negsuc i) = 0
