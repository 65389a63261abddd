-- ===== src/WebTransport/Receive.antt =====
-- What the receiver makes of a capsule, and what it makes of anything else.
use m_quic.Prelude.{
  ℕ, ◌+◌, ◌-◌, ◌*◌, ◌%◌, ◌^◌, ◌<◌, ◌≤◌, ◌≡◌, refl, ◌∙◌, sym, ap, arith, ltb, ◌==◌, if◌then◌else◌,
  if-false,
}
use m_quic.Prelude.{ℤ, pos, List, ◌∷◌, ◌++◌, length, drop, All, bit_or, false}
use m_quic.Prelude.{none, some, length-append, drop-append, take-append, All-append, append_assoc}
use m_quic.Varint.{IsByte, byte, picowt_varint_encode, picowt_varint_decode}
use m_quic.Varint.Encode.{
  varint, varint_size, length-varint, varint-IsByte, picowt_varint_encode-varint,
}
use m_quic.Varint.RoundTrip.{decoders_agree, wt_varint_decode-varint}
use m_quic.Varint.Sums.{or_byte}
use m_quic.WebTransport.{Capsule, capsule_close_session, close_capsule, read_u32}
use m_quic.WebTransport.{capsule_body, picowt_receive_capsule}

picowt_varint_decode-varint :
    (v : ℕ) (rest : List ℕ)
    → v < 2 ^ 62
    → All IsByte rest
    → picowt_varint_decode (varint v ++ rest) ≡ some (v, varint_size v)
picowt_varint_decode-varint v rest h hr =
    decoders_agree (varint v ++ rest) (All-append IsByte (varint v) rest (varint-IsByte v) hr)
    ∙ wt_varint_decode-varint v rest (omega arith)
    ∙ ap (λ (t : ℕ). some (t, varint_size v)) (omega arith)

drop-varint : (v : ℕ) (rest : List ℕ) → drop (varint_size v) (varint v ++ rest) ≡ rest
drop-varint v rest = drop-append (varint_size v) (varint v) rest (sym (length-varint v))

receive-step :
    (p p1 rest : List ℕ) (t n1 l n2 : ℕ) (c : Capsule)
    → 0 < length p
    → picowt_varint_decode p ≡ some (t, n1)
    → drop n1 p ≡ p1
    → picowt_varint_decode p1 ≡ some (l, n2)
    → drop n2 p1 ≡ rest
    → picowt_receive_capsule (some p) (some c)
      ≡ ((capsule_body t l rest).0, some (capsule_body t l rest).1)
unfolding picowt_receive_capsule
receive-step p p1 rest t n1 l n2 c h e1 d1 e2 d2 =
    let full : (length p == 0) ≡ false = ground arith in rw (full, e1, d1, e2, d1, d2) refl

varint_some : (v : ℕ) (rest : List ℕ) → 0 < length (varint v ++ rest)
varint_some v rest = ground (arith, length-append (varint v) rest, length-varint v)

receive-varints :
    (t l : ℕ) (rest : List ℕ) (c : Capsule)
    → t < 2 ^ 62
    → l < 2 ^ 62
    → All IsByte rest
    → picowt_receive_capsule (some (varint t ++ (varint l ++ rest))) (some c)
      ≡ ((capsule_body t l rest).0, some (capsule_body t l rest).1)
receive-varints t l rest c ht hl hr =
    let tail_bytes = All-append IsByte (varint l) rest (varint-IsByte l) hr in
    receive-step (varint t ++ (varint l ++ rest)) (varint l ++ rest) rest t (varint_size t) l
      (varint_size l) c (varint_some t (varint l ++ rest))
      (picowt_varint_decode-varint t (varint l ++ rest) ht tail_bytes)
      (drop-varint t (varint l ++ rest)) (picowt_varint_decode-varint l rest hl hr)
      (drop-varint l rest)

pub read_u32-bytes :
    (a b c d : ℕ) (rest : List ℕ)
    → a < 256
    → b < 256
    → c < 256
    → d < 256
    → read_u32 (a ∷ b ∷ c ∷ d ∷ rest) ≡ a * 2 ^ 24 + b * 2 ^ 16 + c * 2 ^ 8 + d
unfolding read_u32
read_u32-bytes a b c d rest ha hb hc hd =
    let e1 : bit_or (a * 2 ^ 24 % 2 ^ 32) (b * 2 ^ 16 % 2 ^ 32) ≡ (a * 2 ^ 8 + b) * 2 ^ 16 =
      or_byte 24 (a * 2 ^ 24 % 2 ^ 32) a (b * 2 ^ 16 % 2 ^ 32) (omega arith) (omega arith)
      ∙ omega arith in
    let e2 : bit_or (bit_or (a * 2 ^ 24 % 2 ^ 32) (b * 2 ^ 16 % 2 ^ 32)) (c * 2 ^ 8 % 2 ^ 32)
        ≡ (a * 2 ^ 16 + b * 2 ^ 8 + c) * 2 ^ 8 =
      or_byte 16 _ (a * 2 ^ 8 + b) (c * 2 ^ 8 % 2 ^ 32) (omega arith) e1 ∙ omega (arith, e1) in
    let there : ltb (length (a ∷ b ∷ c ∷ d ∷ rest)) 4 ≡ false = ground arith in
    if-false _ _ there
    ∙ or_byte 8 _ (a * 2 ^ 16 + b * 2 ^ 8 + c) d (omega arith) e2
    ∙ omega (arith, e2)

close_body :
    (err : ℕ) (msg rest : List ℕ)
    → err < 2 ^ 32
    → capsule_body capsule_close_session
        (4 + length msg)
        (byte err 24 ∷ byte err 16 ∷ byte err 8 ∷ byte err 0 ∷ (msg ++ rest))
      ≡ (
        pos 0,
        record {
          error_code = err;
          error_msg = if ltb 0 (length msg) then some msg else none;
          error_msg_len = length msg;
        },
      )
unfolding capsule_body
close_body err msg rest h =
    let e : read_u32 (byte err 24 ∷ byte err 16 ∷ byte err 8 ∷ byte err 0 ∷ (msg ++ rest)) ≡ err =
      read_u32-bytes (byte err 24) (byte err 16) (byte err 8) (byte err 0) (msg ++ rest)
        (omega arith) (omega arith) (omega arith) (omega arith)
      ∙ omega arith in
    let m : 4 + length msg - 4 ≡ length msg = omega arith in
    ground (arith, e, m, length-append msg rest, take-append (length msg) msg rest refl)

kind_bytes : picowt_varint_encode capsule_close_session 1024 ≡ varint capsule_close_session
unfolding picowt_varint_encode varint
kind_bytes = refl

kind_room : 1024 - length (picowt_varint_encode capsule_close_session 1024) ≡ 1022
unfolding picowt_varint_encode
kind_room = refl

kind_size : length (varint capsule_close_session) ≡ 2
unfolding varint
kind_size = refl

length_bytes : (m : ℕ) → m ≤ 1016 → picowt_varint_encode (4 + m) 1022 ≡ varint (4 + m)
length_bytes m h = picowt_varint_encode-varint (4 + m) 1022 (omega arith) ∙ ground arith

close_capsule-bytes :
    (err : ℕ) (msg : List ℕ)
    → length msg ≤ 1016
    → close_capsule err msg
      ≡ some (
          (varint capsule_close_session ++ varint (4 + length msg))
          ++ (byte err 24 ∷ byte err 16 ∷ byte err 8 ∷ byte err 0 ∷ msg))
unfolding close_capsule
close_capsule-bytes err msg h =
    let fits : ltb (1024 - length (varint capsule_close_session ++ varint (4 + length msg)))
          (4 + length msg)
        ≡ false =
      ground (
        arith,
        length-append (varint capsule_close_session) (varint (4 + length msg)),
        kind_size,
        length-varint (4 + length msg),
      ) in
    rw (kind_room, length_bytes (length msg) h, kind_bytes, fits) refl

-- The close capsule of an error code of 32 bits and a text of at most 1016 bytes is built within its
-- buffer of 1024 bytes, and the receiver reads the code and the text back from it, whatever bytes
-- follow. An empty text comes back as none.
pub receive-close_capsule :
    (err : ℕ) (msg rest : List ℕ) (c : Capsule)
    → err < 2 ^ 32
    → length msg ≤ 1016
    → All IsByte msg
    → All IsByte rest
    → (buf : List ℕ) × (close_capsule err msg ≡ some buf)
      × (length buf ≤ 1024)
      × (picowt_receive_capsule (some (buf ++ rest)) (some c) ≡ (
        pos 0,
        some (record {
          error_code = err;
          error_msg = if ltb 0 (length msg) then some msg else none;
          error_msg_len = length msg;
        }),
      ))
receive-close_capsule err msg rest c h fits hm hr =
    let kind = varint capsule_close_session in
    let size = varint (4 + length msg) in
    let body = byte err 24 ∷ byte err 16 ∷ byte err 8 ∷ byte err 0 ∷ msg in
    let bytes : All IsByte (body ++ rest) =
      All-append IsByte body rest (omega arith, (omega arith, (omega arith, (omega arith, hm))))
        hr in
    let same : ((kind ++ size) ++ body) ++ rest ≡ kind ++ (size ++ (body ++ rest)) =
      append_assoc (kind ++ size) body rest ∙ append_assoc kind size (body ++ rest) in
    (
      (kind ++ size) ++ body,
      close_capsule-bytes err msg fits,
      ground (
        arith,
        length-append (kind ++ size) body,
        length-append kind size,
        kind_size,
        length-varint (4 + length msg),
      ),
      rw same (
          receive-varints capsule_close_session (4 + length msg) (body ++ rest) c (omega arith)
            (omega arith) bytes
          ∙ ap (λ (x : ℤ × Capsule). (x.0, some x.1)) (close_body err msg rest h)),
    )
