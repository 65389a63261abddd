-- ===== src/Varint/Sums.antt =====
-- The or-ed bytes that the decoders read, as sums.
use m_quic.Prelude.{ℕ, ◌+◌, ◌*◌, ◌%◌, ◌^◌, ◌<◌, ◌≡◌, ◌∙◌, bit_or, arith}
use m_quic.Prelude.Bits.{bit_or-add}

-- One more byte below what has been read, in a field of `k` bits.
pub or_byte : (k x b y : ℕ) → y < 2 ^ k → x ≡ b * 2 ^ k → bit_or x y ≡ x + y
or_byte k x b y h e = rw e (bit_or-add k b y h)

pub sum4 :
    (a b c d : ℕ)
    → a < 64
    → b < 256
    → c < 256
    → d < 256
    → bit_or (bit_or (bit_or (a * 2 ^ 24 % 2 ^ 64) (b * 2 ^ 16 % 2 ^ 64)) (c * 2 ^ 8 % 2 ^ 64)) d
      ≡ a * 2 ^ 24 + b * 2 ^ 16 + c * 2 ^ 8 + d
sum4 a b c d ha hb hc hd = omega (
  arith,
  or_byte 24 (a * 2 ^ 24 % 2 ^ 64) a (b * 2 ^ 16 % 2 ^ 64) (omega arith) (omega arith),
  or_byte 16 _ (a * 2 ^ 8 + b) (c * 2 ^ 8 % 2 ^ 64) (omega arith) e1,
  or_byte 8 _ (a * 2 ^ 16 + b * 2 ^ 8 + c) d (omega arith) e2,
)
  where
    e1 : bit_or (a * 2 ^ 24 % 2 ^ 64) (b * 2 ^ 16 % 2 ^ 64) ≡ (a * 2 ^ 8 + b) * 2 ^ 16
    e1 =
        or_byte 24 (a * 2 ^ 24 % 2 ^ 64) a (b * 2 ^ 16 % 2 ^ 64) (omega arith) (omega arith)
        ∙ omega arith

    e2 :
        bit_or (bit_or (a * 2 ^ 24 % 2 ^ 64) (b * 2 ^ 16 % 2 ^ 64)) (c * 2 ^ 8 % 2 ^ 64)
        ≡ (a * 2 ^ 16 + b * 2 ^ 8 + c) * 2 ^ 8
    e2 = or_byte 16 _ (a * 2 ^ 8 + b) (c * 2 ^ 8 % 2 ^ 64) (omega arith) e1 ∙ omega (arith, e1)

pub sum8 :
    (a b c d e f g h : ℕ)
    → a < 64
    → b < 256
    → c < 256
    → d < 256
    → e < 256
    → f < 256
    → g < 256
    → h < 256
    → bit_or
        (bit_or
          (bit_or
            (bit_or
              (bit_or
                (bit_or (bit_or (a * 2 ^ 56 % 2 ^ 64) (b * 2 ^ 48 % 2 ^ 64)) (c * 2 ^ 40 % 2 ^ 64))
                (d * 2 ^ 32 % 2 ^ 64))
              (e * 2 ^ 24 % 2 ^ 64))
            (f * 2 ^ 16 % 2 ^ 64))
          (g * 2 ^ 8 % 2 ^ 64))
        h
      ≡ a * 2 ^ 56 + b * 2 ^ 48 + c * 2 ^ 40 + d * 2 ^ 32 + e * 2 ^ 24 + f * 2 ^ 16 + g * 2 ^ 8 + h
sum8 a b c d e f g h ha hb hc hd he hf hg hh = omega (
  arith,
  e7,
  or_byte 8 _ (a * 2 ^ 48 + b * 2 ^ 40 + c * 2 ^ 32 + d * 2 ^ 24 + e * 2 ^ 16 + f * 2 ^ 8 + g) h
      (omega arith) e7,
)
  where
    e2 : bit_or (a * 2 ^ 56 % 2 ^ 64) (b * 2 ^ 48 % 2 ^ 64) ≡ (a * 2 ^ 8 + b) * 2 ^ 48
    e2 = or_byte 56 _ (a) (b * 2 ^ 48 % 2 ^ 64) (omega arith) (omega arith) ∙ omega (arith)

    e3 :
        bit_or (bit_or (a * 2 ^ 56 % 2 ^ 64) (b * 2 ^ 48 % 2 ^ 64)) (c * 2 ^ 40 % 2 ^ 64)
        ≡ (a * 2 ^ 16 + b * 2 ^ 8 + c) * 2 ^ 40
    e3 = or_byte 48 _ (a * 2 ^ 8 + b) (c * 2 ^ 40 % 2 ^ 64) (omega arith) e2 ∙ omega (arith, e2)

    e4 :
        bit_or
          (bit_or (bit_or (a * 2 ^ 56 % 2 ^ 64) (b * 2 ^ 48 % 2 ^ 64)) (c * 2 ^ 40 % 2 ^ 64))
          (d * 2 ^ 32 % 2 ^ 64)
        ≡ (a * 2 ^ 24 + b * 2 ^ 16 + c * 2 ^ 8 + d) * 2 ^ 32
    e4 =
        or_byte 40 _ (a * 2 ^ 16 + b * 2 ^ 8 + c) (d * 2 ^ 32 % 2 ^ 64) (omega arith) e3
        ∙ omega (arith, e3)

    e5 :
        bit_or
          (bit_or
            (bit_or (bit_or (a * 2 ^ 56 % 2 ^ 64) (b * 2 ^ 48 % 2 ^ 64)) (c * 2 ^ 40 % 2 ^ 64))
            (d * 2 ^ 32 % 2 ^ 64))
          (e * 2 ^ 24 % 2 ^ 64)
        ≡ (a * 2 ^ 32 + b * 2 ^ 24 + c * 2 ^ 16 + d * 2 ^ 8 + e) * 2 ^ 24
    e5 =
        or_byte 32 _ (a * 2 ^ 24 + b * 2 ^ 16 + c * 2 ^ 8 + d) (e * 2 ^ 24 % 2 ^ 64) (omega arith)
          e4
        ∙ omega (arith, e4)

    e6 :
        bit_or
          (bit_or
            (bit_or
              (bit_or (bit_or (a * 2 ^ 56 % 2 ^ 64) (b * 2 ^ 48 % 2 ^ 64)) (c * 2 ^ 40 % 2 ^ 64))
              (d * 2 ^ 32 % 2 ^ 64))
            (e * 2 ^ 24 % 2 ^ 64))
          (f * 2 ^ 16 % 2 ^ 64)
        ≡ (a * 2 ^ 40 + b * 2 ^ 32 + c * 2 ^ 24 + d * 2 ^ 16 + e * 2 ^ 8 + f) * 2 ^ 16
    e6 =
        or_byte 24 _ (a * 2 ^ 32 + b * 2 ^ 24 + c * 2 ^ 16 + d * 2 ^ 8 + e) (f * 2 ^ 16 % 2 ^ 64)
          (omega arith) e5
        ∙ omega (arith, e5)

    e7 :
        bit_or
          (bit_or
            (bit_or
              (bit_or
                (bit_or (bit_or (a * 2 ^ 56 % 2 ^ 64) (b * 2 ^ 48 % 2 ^ 64)) (c * 2 ^ 40 % 2 ^ 64))
                (d * 2 ^ 32 % 2 ^ 64))
              (e * 2 ^ 24 % 2 ^ 64))
            (f * 2 ^ 16 % 2 ^ 64))
          (g * 2 ^ 8 % 2 ^ 64)
        ≡ (a * 2 ^ 48 + b * 2 ^ 40 + c * 2 ^ 32 + d * 2 ^ 24 + e * 2 ^ 16 + f * 2 ^ 8 + g) * 2 ^ 8
    e7 =
        or_byte 16 _ (a * 2 ^ 40 + b * 2 ^ 32 + c * 2 ^ 24 + d * 2 ^ 16 + e * 2 ^ 8 + f)
          (g * 2 ^ 8 % 2 ^ 64) (omega arith) e6
        ∙ omega (arith, e6)
