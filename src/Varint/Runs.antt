-- ===== src/Varint/Runs.antt =====
-- Concrete runs of the codecs, and their theorems at concrete inputs.
use m_quic.Prelude.{◌+◌, ◌^◌, ◌≡◌, refl, arith}
use m_quic.Prelude.{[], ◌∷◌, ◌++◌, length, none, some}
use m_quic.Varint.{quic_varint_encode, wt_varint_encode, wt_varint_decode}
use m_quic.Varint.{picowt_varint_encode, picowt_varint_decode}
use m_quic.Varint.Encode.{encoders_agree}
use m_quic.Varint.RoundTrip.{decode-encode}

-- The stream type of WebTransport needs two bytes.
stream_type : quic_varint_encode 0x54 ≡ 0x40 ∷ 0x54 ∷ []
unfolding quic_varint_encode
stream_type = refl

too_large : quic_varint_encode (2 ^ 62) ≡ []
unfolding quic_varint_encode
too_large = refl

four_bytes : wt_varint_decode (0x9d ∷ 0x7f ∷ 0x3e ∷ 0x7d ∷ []) ≡ some (494878333, 4)
unfolding wt_varint_decode
four_bytes = refl

cut_short : picowt_varint_decode (0x9d ∷ 0x7f ∷ 0x3e ∷ []) ≡ none
unfolding picowt_varint_decode
cut_short = refl

encoders_agree_example :
    (quic_varint_encode 70000 ≡ wt_varint_encode 70000) × (picowt_varint_encode 70000 3 ≡ [])
encoders_agree_example = encoders_agree 70000 3 (omega arith)

-- A number of 63 bits loses its top bit.
decode-encode_example :
    (wt_varint_decode (wt_varint_encode (2 ^ 62 + 5) ++ (7 ∷ []))
      ≡ some (5, length (wt_varint_encode (2 ^ 62 + 5))))
    × (picowt_varint_decode (wt_varint_encode (2 ^ 62 + 5) ++ (7 ∷ []))
        ≡ some (5, length (wt_varint_encode (2 ^ 62 + 5))))
decode-encode_example = decode-encode (2 ^ 62 + 5) (7 ∷ []) (omega arith) (omega arith)
