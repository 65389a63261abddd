-- ===== src/Varint/RoundTrip.antt =====
-- The decoders read back what the encoders write, and no decoder reads outside its input.
use m_quic.Prelude.{ℕ, ◌+◌, ◌*◌, ◌/◌, ◌%◌, ◌^◌, ◌<◌, ◌≡◌, refl, ◌∙◌, arith}
use m_quic.Prelude.{List, [], ◌∷◌, ◌++◌, length, All, bit_or, some}
use m_quic.Prelude.Bits.{bit_and_six, bit_and_top}
use m_quic.Varint.{IsByte, byte, wt_varint_decode}
use m_quic.Varint.{picowt_varint_decode}
use m_quic.Varint.Sums.{or_byte, sum4, sum8}
use m_quic.Varint.{wt_varint_encode, tail4, tail8}
use m_quic.Prelude.{zero, suc, take, length-take, none, ◌⊎◌}
use m_quic.Prelude.{All-append, get_or-append, length-append}
use m_quic.Varint.Encode.{
  varint, varint_size, varint-IsByte, length-varint, wt_varint_encode-varint,
}

read2_sum : (a b : ℕ) → a < 64 → b < 256 → bit_or (a * 2 ^ 8 % 2 ^ 64) b ≡ a * 2 ^ 8 + b
read2_sum a b ha hb = omega (arith, or_byte 8 (a * 2 ^ 8 % 2 ^ 64) a b (omega arith) (omega arith))

decode_one : (v : ℕ) (rest : List ℕ) → v < 2 ^ 6 → wt_varint_decode (v ∷ rest) ≡ some (v, 1)
unfolding wt_varint_decode
decode_one v rest h = ground (arith, bit_and_top v, bit_and_six v)

decode_two :
    (a b : ℕ) (rest : List ℕ)
    → a < 64
    → b < 256
    → wt_varint_decode ((64 + a) ∷ b ∷ rest) ≡ some (a * 2 ^ 8 + b, 2)
unfolding wt_varint_decode
decode_two a b rest ha hb =
    ground (arith, bit_and_top (64 + a), bit_and_six (64 + a), read2_sum a b)

decode_four :
    (a b c d : ℕ) (rest : List ℕ)
    → a < 64
    → b < 256
    → c < 256
    → d < 256
    → wt_varint_decode ((128 + a) ∷ b ∷ c ∷ d ∷ rest)
      ≡ some (a * 2 ^ 24 + b * 2 ^ 16 + c * 2 ^ 8 + d, 4)
unfolding wt_varint_decode
decode_four a b c d rest ha hb hc hd =
    ground (arith, bit_and_top (128 + a), bit_and_six (128 + a), sum4 a b c d)

decode_eight :
    (a b c d e f g h : ℕ) (rest : List ℕ)
    → a < 64
    → b < 256
    → c < 256
    → d < 256
    → e < 256
    → f < 256
    → g < 256
    → h < 256
    → wt_varint_decode ((192 + a) ∷ b ∷ c ∷ d ∷ e ∷ f ∷ g ∷ h ∷ rest)
      ≡ some (
        a * 2 ^ 56 + b * 2 ^ 48 + c * 2 ^ 40 + d * 2 ^ 32 + e * 2 ^ 24 + f * 2 ^ 16 + g * 2 ^ 8 + h,
        8,
      )
unfolding wt_varint_decode
decode_eight a b c d e f g h rest ha hb hc hd he hf hg hh =
    ground (arith, bit_and_top (192 + a), bit_and_six (192 + a), sum8 a b c d e f g h)

-- What the client's decoder makes of the encoding of any number of 64 bits.
pub wt_varint_decode-varint :
    (v : ℕ) (rest : List ℕ)
    → v < 2 ^ 64
    → wt_varint_decode (varint v ++ rest) ≡ some (v % 2 ^ 62, varint_size v)
unfolding varint
wt_varint_decode-varint v rest h = ground (
  arith,
  decode_one v rest,
  decode_two (v / 2 ^ 8) (byte v 0) rest,
  decode_four (v / 2 ^ 24) (byte v 16) (byte v 8) (byte v 0) rest,
  decode_eight (v / 2 ^ 56 % 64) (byte v 48) (byte v 40) (byte v 32) (byte v 24) (byte v 16)
      (byte v 8) (byte v 0) rest,
)

-- On a string of bytes the client's decoder and the WebTransport layer's answer alike.
pub decoders_agree : (p : List ℕ) → All IsByte p → picowt_varint_decode p ≡ wt_varint_decode p
unfolding picowt_varint_decode wt_varint_decode
decoders_agree [] h = refl
decoders_agree (b ∷ p) h = ground (arith, bit_and_top b)

-- Whatever the client writes for a 64-bit number, both decoders read it back reduced modulo 2^62,
-- with the number of bytes that were written, and whatever follows is left alone.
pub decode-encode :
    (v : ℕ) (rest : List ℕ)
    → v < 2 ^ 64
    → All IsByte rest
    → (wt_varint_decode (wt_varint_encode v ++ rest)
        ≡ some (v % 2 ^ 62, length (wt_varint_encode v)))
      × (picowt_varint_decode (wt_varint_encode v ++ rest)
          ≡ some (v % 2 ^ 62, length (wt_varint_encode v)))
decode-encode v rest h hr =
    let plain : wt_varint_decode (wt_varint_encode v ++ rest)
        ≡ some (v % 2 ^ 62, length (wt_varint_encode v)) =
      rw (wt_varint_encode-varint v, length-varint v) (wt_varint_decode-varint v rest h) in
    (plain, decoders_agree (wt_varint_encode v ++ rest) bytes ∙ plain)
  where
    bytes : All IsByte (wt_varint_encode v ++ rest)
    bytes =
        All-append IsByte (wt_varint_encode v) rest
          (rw (wt_varint_encode-varint v) (varint-IsByte v)) hr

-- Bytes behind the ones that make up the number do not change what is decoded.
pub wt_varint_decode-append :
    (p more : List ℕ) (v n : ℕ)
    → wt_varint_decode p ≡ some (v, n)
    → wt_varint_decode (p ++ more) ≡ some (v, n)
unfolding wt_varint_decode
wt_varint_decode-append [] more v n e = cc
wt_varint_decode-append (b ∷ p) more v n e = ground (
  arith,
  length-append p more,
  get_or-append p more 0 0,
  get_or-append p more 1 0,
  get_or-append p more 2 0,
  get_or-append p more 3 0,
  get_or-append p more 4 0,
  get_or-append p more 5 0,
  get_or-append p more 6 0,
)

short_one :
    (b : ℕ) (p : List ℕ) (n : ℕ)
    → b < 256
    → length p < n
    → (b / 64 ≡ 1 × n ≡ 1) ⊎ (b / 64 ≡ 2 × n ≡ 3) ⊎ (b / 64 ≡ 3 × n ≡ 7)
    → wt_varint_decode (b ∷ p) ≡ none
unfolding wt_varint_decode
short_one b p n hb h cases = ground (arith, bit_and_top b hb)

-- A number that is cut is not read.
pub wt_varint_decode-short :
    (v k : ℕ) → 0 < k → k < varint_size v → wt_varint_decode (take k (varint v)) ≡ none
unfolding varint
wt_varint_decode-short v zero some_bytes short = absurd (omega arith)
wt_varint_decode-short v (suc k) some_bytes short = ground (
  arith,
  short_one (64 + v / 2 ^ 8) (take k (byte v 0 ∷ [])) 1,
  short_one (128 + v / 2 ^ 24) (take k (tail4 v)) 3,
  short_one (192 + v / 2 ^ 56 % 64) (take k (tail8 v)) 7,
  length-take k (byte v 0 ∷ []),
  length-take k (tail4 v),
  length-take k (tail8 v),
)
