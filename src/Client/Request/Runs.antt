-- ===== src/Client/Request/Runs.antt =====
-- The theorems on the request at concrete inputs.
use m_quic.Prelude.{ℕ, ◌≡◌, refl, arith, ltb, if◌then◌else◌, true, false}
use m_quic.Prelude.{List, [], ◌∷◌, ◌++◌, length, some}
use m_quic.Varint.Encode.{varint, varint_size}
use m_quic.Quic.Bench.{Bench, bench_quic}
use m_quic.Client.Request.{h3zero_client_create_connect_request}
use m_quic.Client.Request.Laws.{Encodes, connect_block}
use m_quic.Client.Request.Laws.{connect_request-frame}

abbrev encode : ℕ → ℕ → List ℕ
encode v cap = if ltb cap (varint_size v) then [] else varint v

encode-Encodes : Encodes encode
encode-Encodes v cap h = refl

abbrev idle : Bench
idle = record { time = 0; room = 1; state = 13; array = []; next_id = 0; contexts = 0; log = [] }

connect_request-frame_example :
    h3zero_client_create_connect_request encode bench_quic true 0
      (some (97 ∷ []))
      (some (47 ∷ []))
      false
      idle
    ≡ bench_quic.add_to_stream 0
        (1
          ∷ (varint (length (connect_block (97 ∷ []) (47 ∷ [])))
              ++ connect_block (97 ∷ []) (47 ∷ [])))
        false
        idle
unfolding connect_block varint
connect_request-frame_example =
    connect_request-frame encode encode-Encodes bench_quic 0 (97 ∷ []) (47 ∷ []) false idle
      (omega arith) (omega arith)
