-- ===== src/Prelude/Bits.antt =====
-- `|` and `&` on fields that do not overlap, as sums and remainders.
use Prim.Native.Nat.{ℕ, zero, suc, ◌+◌, ◌-◌, ◌*◌, ◌/◌, ◌%◌, ◌^◌, ◌≤◌, ◌<◌, bit_and, bit_or}
use Prim.Native.Nat.{max, digits, bit_or-bitwise}
use mathlib.Core.Path.{◌≡◌, refl, ap, ◌∙◌}
use mathlib.Core.Bool.{Bool, true, ◌&&◌}
use native.Mathlib.Nat.{pow-suc}
use native.Mathlib.Omega.{arith}
use m_quic.Prelude.Tests.{◌==◌, ==_iff}

-- The digits of an or, with `n` digits to go.
abbrev or_digits : ℕ → ℕ → ℕ → ℕ
or_digits = digits (λ low. low) max

-- One digit more changes nothing, and so no number of them does.
or_digits-suc : (n a b : ℕ) → a ≤ n → or_digits (suc n) a b ≡ or_digits n a b
or_digits-suc zero zero b h = refl
or_digits-suc zero (suc a) b h = absurd (omega arith)
or_digits-suc (suc n) zero b h = refl
or_digits-suc (suc n) (suc a) b h = omega (arith, or_digits-suc n (suc a / 2) (b / 2) (omega arith))

or_digits-add : (k n a b : ℕ) → a ≤ n → or_digits (k + n) a b ≡ or_digits n a b
or_digits-add zero n a b h = let e : zero + n ≡ n = omega arith in rw e refl
or_digits-add (suc k) n a b h =
    let e : suc k + n ≡ suc (k + n) = omega arith in
    rw e (or_digits-suc (k + n) a b (omega arith) ∙ or_digits-add k n a b h)

or_digits-half : (a b : ℕ) → or_digits a (suc a / 2) b ≡ or_digits (suc a / 2) (suc a / 2) b
or_digits-half a b =
    let e : (a - suc a / 2) + suc a / 2 ≡ a = omega arith in
    rw e at (or_digits-add (a - suc a / 2) (suc a / 2) (suc a / 2) b (omega arith))

pub bit_or_step : (a b : ℕ) → bit_or a b ≡ bit_or (a / 2) (b / 2) * 2 + max (a % 2) (b % 2)
bit_or_step zero b = ground (arith, bit_or-bitwise 0 b, bit_or-bitwise 0 (b / 2))
bit_or_step (suc a) b =
    let whole = bit_or-bitwise (suc a) b in
    let upper = bit_or-bitwise (suc a / 2) (b / 2) in
    let same = or_digits-half a (b / 2) in omega (arith, same, upper, whole)

bit_or_zero_below : (n a : ℕ) → a ≤ n → bit_or a 0 ≡ a
bit_or_zero_below n zero h = refl
bit_or_zero_below zero (suc a) h = absurd (omega arith)
bit_or_zero_below (suc n) (suc a) h =
    omega (arith, bit_or_step (suc a) 0, bit_or_zero_below n (suc a / 2) (omega arith))

-- A field above bit `k`, or-ed with one below it, is their sum.
pub bit_or-add : (k a b : ℕ) → b < 2 ^ k → bit_or (a * 2 ^ k) b ≡ a * 2 ^ k + b
bit_or-add zero a b h = ground (arith, bit_or_zero_below a a (omega arith))
bit_or-add (suc k) a b h = ground (
  arith,
  bit_or_step (a * 2 ^ suc k) b,
  ap (λ (t : ℕ). a * t) (pow-suc 2 k),
  bit_or-add k a (b / 2) (omega arith),
)

-- Masks on one byte, checked value by value.
holds_to : ℕ → (ℕ → Bool) → Bool
holds_to zero p = true
holds_to (suc n) p = p zero && holds_to n (λ i. p (suc i))

holds_at : (n i : ℕ) (p : ℕ → Bool) → i < n → holds_to n p ≡ true → p i ≡ true
unfolding holds_to
holds_at zero i p lt all = absurd (omega arith)
holds_at (suc n) zero p lt all = ground (arith, all)
holds_at (suc n) (suc i) p lt all =
    holds_at n i (λ j. p (suc j)) (omega arith) (ground (arith, all))

six_bits_table : holds_to 256 (λ x. bit_and x 0x3F == x % 64) ≡ true
unfolding holds_to
six_bits_table = refl

top_bits_table : holds_to 256 (λ x. bit_and x 0xC0 == x / 64 * 64) ≡ true
unfolding holds_to
top_bits_table = refl

-- `x & 0x3F` of a byte
pub bit_and_six : (x : ℕ) → x < 256 → bit_and x 0x3F ≡ x % 64
bit_and_six x h = (==_iff _ _).0 (holds_at 256 x _ h six_bits_table)

-- `x & 0xC0` of a byte
pub bit_and_top : (x : ℕ) → x < 256 → bit_and x 0xC0 ≡ x / 64 * 64
bit_and_top x h = (==_iff _ _).0 (holds_at 256 x _ h top_bits_table)

top_or_table : holds_to 256 (λ x. bit_or 0xC0 x == 192 + x % 64) ≡ true
unfolding holds_to
top_or_table = refl

-- `0x40 | x` and `0x80 | x` for `x` of six bits, and `0xC0 | x` for any byte
pub prefix_40 : (x : ℕ) → x < 64 → bit_or 0x40 x ≡ 64 + x
prefix_40 x h = bit_or-add 6 1 x h

pub prefix_80 : (x : ℕ) → x < 64 → bit_or 0x80 x ≡ 128 + x
prefix_80 x h = bit_or-add 6 2 x h

pub prefix_c0 : (x : ℕ) → x < 256 → bit_or 0xC0 x ≡ 192 + x % 64
prefix_c0 x h = (==_iff _ _).0 (holds_at 256 x _ h top_or_table)
