-- ===== src/Prelude/Text.antt =====
-- Texts as the bytes that C keeps of them, and `%d` of `snprintf`.
use Prim.Native.Nat.{ℕ, zero, suc, ◌+◌, ◌/◌, ◌%◌}
use mathlib.Core.List.{List, [], ◌∷◌, ◌++◌}
use Prim.Native.Char.{code}
use Prim.Native.String.{String}
use m_quic.Prelude.Tests.{ltb, if◌then◌else◌}
use m_quic.Prelude.Int.{ℤ, pos, negsuc}

-- The bytes of an ASCII text.
abbrev pub codes : String → List ℕ
codes String.[] = []
codes (String.◌∷◌ c s) = code c ∷ codes s

-- The last `n` decimal digits of a number, without leading zeros.
unfoldable pub digits : ℕ → ℕ → List ℕ
digits zero v = []
digits (suc n) v =
    let front = digits n (v / 10) in
    if ltb v 10 then (b'0' + v) ∷ [] else front ++ ((b'0' + v % 10) ∷ [])

-- `%d` of an `int`, which has at most ten digits.
unfoldable pub decimal : ℤ → List ℕ
decimal (pos v) = digits 10 v
decimal (negsuc v) = b'-' ∷ digits 10 (v + 1)
