-- ===== src/WebTransport/Runs.antt =====
-- The theorems on the WebTransport layer at concrete inputs.
use m_quic.Prelude.{ℕ, ◌+◌, ◌≤◌, ◌≡◌, refl, arith, ◌⊎◌, true, false}
use m_quic.Prelude.{pos, minus_one, List, [], ◌∷◌, ◌++◌, length, take, drop, none, some}
use m_quic.Varint.{picowt_varint_decode}
use m_quic.Quic.Bench.{Bench, bench_quic, bench_Queues}
use m_quic.WebTransport.{StreamCtx, Capsule, no_capsule, close_capsule, read_u32, capsule_body}
use m_quic.WebTransport.{picowt_receive_capsule, picowt_connect}
use m_quic.WebTransport.Receive.{receive-close_capsule}
use m_quic.WebTransport.Bounds.{receive_bounds}
use m_quic.WebTransport.Sends.{ok_frame, picowt_connect-queues}

receive-close_capsule_example :
    (buf : List ℕ) × (close_capsule 7 (104 ∷ 105 ∷ []) ≡ some buf)
    × (length buf ≤ 1024)
    × (picowt_receive_capsule (some (buf ++ (0 ∷ []))) (some no_capsule) ≡ (
      pos 0,
      some (record { error_code = 7; error_msg = some (104 ∷ 105 ∷ []); error_msg_len = 2 }),
    ))
receive-close_capsule_example =
    receive-close_capsule 7 (104 ∷ 105 ∷ []) (0 ∷ []) no_capsule (omega arith) (omega arith)
      (omega arith, (omega arith, tt)) (omega arith, tt)

abbrev closing : List ℕ
closing = 0x68 ∷ 0x43 ∷ 6 ∷ 0 ∷ 0 ∷ 0 ∷ 7 ∷ 104 ∷ 105 ∷ []

abbrev closed : Capsule
closed = record { error_code = 7; error_msg = some (104 ∷ 105 ∷ []); error_msg_len = 2 }

receives : picowt_receive_capsule (some closing) (some no_capsule) ≡ (pos 0, some closed)
unfolding picowt_receive_capsule picowt_varint_decode capsule_body read_u32
receives = refl

receive_bounds_example :
    (n : ℕ) × (n + 2 ≤ 9) × (104 ∷ 105 ∷ [] ≡ take 2 (drop n closing)) × (closed.error_msg_len ≡ 2)
receive_bounds_example = receive_bounds closing (104 ∷ 105 ∷ []) no_capsule closed receives refl

-- A capsule whose body says that it has three bytes.
abbrev cut_code : List ℕ
cut_code = 0x68 ∷ 0x43 ∷ 3 ∷ 0 ∷ 0 ∷ 7 ∷ []

cut_refused :
    picowt_receive_capsule (some cut_code) (some no_capsule) ≡ (minus_one, some no_capsule)
unfolding picowt_receive_capsule picowt_varint_decode capsule_body
cut_refused = refl

abbrev idle : Bench
idle = record { time = 0; room = 1; state = 13; array = []; next_id = 3; contexts = 0; log = [] }

abbrev control : StreamCtx
control = record { stream_id = 0; path_callback_ctx = none }

picowt_connect-queues_example :
    ((s : StreamCtx) × (some control ≡ some s)
      × (true ≡ true)
      × ((picowt_connect bench_quic true (some control) idle).0 ≡ pos 0)
      × ((picowt_connect bench_quic true (some control) idle).1.log
          ≡ [] ++ (record { sid = s.stream_id; bytes = ok_frame; fin = false } ∷ [])))
    ⊎ (((picowt_connect bench_quic true (some control) idle).0 ≡ minus_one)
        × ((picowt_connect bench_quic true (some control) idle).1.log ≡ []))
picowt_connect-queues_example =
    picowt_connect-queues bench_quic (λ b. b.log) bench_Queues true (some control) idle
