-- ===== src/Varint.antt =====
-- QUIC variable-length integers: the encoder of src/quic_server.c (`quic_varint_encode`), the pair
-- of client/wt_client.c and the pair of src/pico_webtransport.c (both `wt_varint_encode` and
-- `wt_varint_decode`). An encoder returns the bytes that it writes, so its result is their number.
pub mod Sums
pub mod Encode
pub mod RoundTrip
mod Runs
use m_quic.Prelude.{ℕ, ◌+◌, ◌*◌, ◌/◌, ◌%◌, ◌^◌, ◌<◌, bit_and, bit_or, ltb, leb, ◌==◌, if◌then◌else◌}
use m_quic.Prelude.{List, [], ◌∷◌, length, get_or, Option, none, some}

abbrev pub IsByte : ℕ → Type 0
IsByte b = b < 256

-- `(uint8_t)(v >> k)`
abbrev pub byte : ℕ → ℕ → ℕ
byte v k = v / 2 ^ k % 256

-- `(uint64_t)x << k`
abbrev pub shl : ℕ → ℕ → ℕ
shl x k = x * 2 ^ k % 2 ^ 64

abbrev pub tail4 : ℕ → List ℕ
tail4 v = byte v 16 ∷ byte v 8 ∷ byte v 0 ∷ []

abbrev pub tail8 : ℕ → List ℕ
tail8 v = byte v 48 ∷ byte v 40 ∷ byte v 32 ∷ byte v 24 ∷ byte v 16 ∷ byte v 8 ∷ byte v 0 ∷ []

-- The server's encoder writes nothing from 2^62 on.
unfoldable pub quic_varint_encode : ℕ → List ℕ
quic_varint_encode v =
    if ltb v (2 ^ 6)
    then byte v 0 ∷ []
    else if ltb v (2 ^ 14)
    then bit_or 0x40 (byte v 8) ∷ byte v 0 ∷ []
    else if ltb v (2 ^ 30)
    then bit_or 0x80 (byte v 24) ∷ tail4 v
    else if ltb v (2 ^ 62)
    then bit_or 0xC0 (byte v 56) ∷ tail8 v
    else []

-- The client's encoder has no upper limit.
unfoldable pub wt_varint_encode : ℕ → List ℕ
wt_varint_encode v =
    if ltb v (2 ^ 6)
    then byte v 0 ∷ []
    else if ltb v (2 ^ 14)
    then bit_or 0x40 (byte v 8) ∷ byte v 0 ∷ []
    else if ltb v (2 ^ 30)
    then bit_or 0x80 (byte v 24) ∷ tail4 v
    else bit_or 0xC0 (byte v 56) ∷ tail8 v

-- The bytes at `p[1]`, `p[2]`, … of a number of four and of eight bytes; `b0` is the first byte
-- without its prefix.
abbrev pub read2 : ℕ → List ℕ → ℕ
read2 b0 p = bit_or (shl b0 8) (get_or p 1 0)

abbrev pub read4 : ℕ → List ℕ → ℕ
read4 b0 p =
    bit_or (bit_or (bit_or (shl b0 24) (shl (get_or p 1 0) 16)) (shl (get_or p 2 0) 8))
      (get_or p 3 0)

abbrev pub read8 : ℕ → List ℕ → ℕ
read8 b0 p =
    bit_or
      (bit_or
        (bit_or
          (bit_or
            (bit_or (bit_or (bit_or (shl b0 56) (shl (get_or p 1 0) 48)) (shl (get_or p 2 0) 40))
              (shl (get_or p 3 0) 32))
            (shl (get_or p 4 0) 24))
          (shl (get_or p 5 0) 16))
        (shl (get_or p 6 0) 8))
      (get_or p 7 0)

-- The list is `p[0 .. len)`. The result is `*out` with the number of bytes read, and `none` for 0.
unfoldable pub wt_varint_decode : List ℕ → Option (ℕ × ℕ)
wt_varint_decode p =
    let b0 = get_or p 0 0 in
    let top = bit_and b0 0xC0 in
    if length p == 0
    then none
    else if top == 0x00
    then some (bit_and b0 0x3F, 1)
    else if top == 0x40
    then (if ltb (length p) 2 then none else some (read2 (bit_and b0 0x3F) p, 2))
    else if top == 0x80
    then (if ltb (length p) 4 then none else some (read4 (bit_and b0 0x3F) p, 4))
    else if ltb (length p) 8
    then none
    else some (read8 (bit_and b0 0x3F) p, 8)

-- The WebTransport layer's encoder into a buffer with `cap` bytes left.
unfoldable pub picowt_varint_encode : ℕ → ℕ → List ℕ
picowt_varint_encode v cap =
    if leb v 0x3F
    then (if ltb cap 1 then [] else byte v 0 ∷ [])
    else if leb v 0x3FFF
    then (if ltb cap 2 then [] else bit_or 0x40 (bit_and (v / 2 ^ 8) 0x3F) ∷ byte v 0 ∷ [])
    else if leb v 0x3FFFFFFF
    then (if ltb cap 4 then [] else bit_or 0x80 (bit_and (v / 2 ^ 24) 0x3F) ∷ tail4 v)
    else if ltb cap 8
    then []
    else bit_or 0xC0 (bit_and (v / 2 ^ 56) 0x3F) ∷ tail8 v

-- `pref = b0 >> 6` gives the length.
abbrev pub prefix_len : ℕ → ℕ
prefix_len b0 =
    let pref = b0 / 2 ^ 6 in
    if pref == 0 then 1 else if pref == 1 then 2 else if pref == 2 then 4 else 8

unfoldable pub picowt_varint_decode : List ℕ → Option (ℕ × ℕ)
picowt_varint_decode p =
    let b0 = get_or p 0 0 in
    let len = prefix_len b0 in
    if length p == 0
    then none
    else if ltb (length p) len
    then none
    else if len == 1
    then some (bit_and b0 0x3F, len)
    else if len == 2
    then some (read2 (bit_and b0 0x3F) p, len)
    else if len == 4
    then some (read4 (bit_and b0 0x3F) p, len)
    else some (read8 (bit_and b0 0x3F) p, len)
