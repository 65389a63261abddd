-- ===== src/Varint/Encode.antt =====
-- The three encoders, in plain arithmetic and against each other.
use m_quic.Prelude.{ℕ, ◌+◌, ◌/◌, ◌%◌, ◌^◌, ◌<◌, ◌≡◌, arith, ltb, if◌then◌else◌}
use m_quic.Prelude.{List, [], ◌∷◌, length, All}
use m_quic.Prelude.Bits.{prefix_40, prefix_80, prefix_c0, bit_and_six}
use m_quic.Varint.{IsByte, byte, tail4, tail8}
use m_quic.Varint.{quic_varint_encode, wt_varint_encode, picowt_varint_encode}

-- The number of bytes of RFC 9000 for a value.
abbrev pub varint_size : ℕ → ℕ
varint_size v =
    if ltb v (2 ^ 6) then 1 else if ltb v (2 ^ 14) then 2 else if ltb v (2 ^ 30) then 4 else 8

-- The encoding of RFC 9000: big-endian bytes with the length in the two top bits.
unfoldable pub varint : ℕ → List ℕ
varint v =
    if ltb v (2 ^ 6)
    then v ∷ []
    else if ltb v (2 ^ 14)
    then (64 + v / 2 ^ 8) ∷ byte v 0 ∷ []
    else if ltb v (2 ^ 30)
    then (128 + v / 2 ^ 24) ∷ tail4 v
    else (192 + v / 2 ^ 56 % 64) ∷ tail8 v

pub wt_varint_encode-varint : (v : ℕ) → wt_varint_encode v ≡ varint v
unfolding wt_varint_encode varint
wt_varint_encode-varint v =
    ground (arith, prefix_40 (byte v 8), prefix_80 (byte v 24), prefix_c0 (byte v 56))

pub quic_varint_encode-varint : (v : ℕ) → v < 2 ^ 62 → quic_varint_encode v ≡ varint v
unfolding quic_varint_encode varint
quic_varint_encode-varint v h =
    ground (arith, prefix_40 (byte v 8), prefix_80 (byte v 24), prefix_c0 (byte v 56))

pub picowt_varint_encode-varint :
    (v cap : ℕ)
    → v < 2 ^ 64
    → picowt_varint_encode v cap ≡ (if ltb cap (varint_size v) then [] else varint v)
unfolding picowt_varint_encode varint
picowt_varint_encode-varint v cap h = ground (
  arith,
  prefix_40 (v / 2 ^ 8),
  prefix_80 (v / 2 ^ 24),
  prefix_c0 (v / 2 ^ 56 % 64),
  bit_and_six (v / 2 ^ 8),
  bit_and_six (v / 2 ^ 24),
  bit_and_six (v / 2 ^ 56),
)

pub length-varint : (v : ℕ) → length (varint v) ≡ varint_size v
unfolding varint
length-varint v = ground arith

pub varint-IsByte : (v : ℕ) → All IsByte (varint v)
unfolding varint
varint-IsByte v = ground arith

quic_varint_encode-cut :
    (v : ℕ) → quic_varint_encode v ≡ (if ltb v (2 ^ 62) then wt_varint_encode v else [])
unfolding quic_varint_encode wt_varint_encode
quic_varint_encode-cut v = ground arith

-- On every 64-bit value the server's encoder writes what the client's writes if the value is below
-- 2^62 and nothing otherwise, and the WebTransport layer's writes what the client's writes if its
-- buffer has room for the one, two, four or eight bytes of it and nothing otherwise.
pub encoders_agree :
    (v cap : ℕ)
    → v < 2 ^ 64
    → (quic_varint_encode v ≡ (if ltb v (2 ^ 62) then wt_varint_encode v else []))
      × (picowt_varint_encode v cap ≡ (if ltb cap (varint_size v) then [] else wt_varint_encode v))
encoders_agree v cap h =
    (quic_varint_encode-cut v, rw wt_varint_encode-varint (picowt_varint_encode-varint v cap h))
