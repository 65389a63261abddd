-- ===== src/ProtocolInit/Runs.antt =====
-- The start of an HTTP/3 connection at a small concrete picoquic.
use m_quic.Prelude.{ℕ, ◌≡◌, refl, arith}
use m_quic.Prelude.{List, [], ◌∷◌, Option, some}
use m_quic.Quic.Bench.{Bench, bench_quic, bench_Queues}
use m_quic.ProtocolInit.{Settings, settings_for, open_on, open_next, h3zero_protocol_init}
use m_quic.ProtocolInit.Laws.{Numbers, Initialised, open_write, protocol_init-Initialised}

-- Settings that are encoded as one byte, the number of WebTransport sessions.
abbrev one_byte : ℕ → Settings → Option (List ℕ)
one_byte cap s = some (s.webtransport_max_sessions ∷ [])

abbrev fresh : Bench
fresh = record { time = 0; room = 3; state = 0; array = []; next_id = 3; contexts = 0; log = [] }

three_streams :
    (h3zero_protocol_init bench_quic one_byte 1532 fresh).1.log
    ≡ open_write 3 (0 ∷ 1 ∷ []) ∷ open_write 7 (2 ∷ []) ∷ open_write 11 (3 ∷ []) ∷ []
unfolding h3zero_protocol_init open_next open_on settings_for
three_streams = refl

bench_Numbers : Numbers bench_quic
bench_Numbers = record {
  next_follows = λ bytes w ok. ground (arith, ok);
  priority_opens_nothing = λ sid priority w. refl;
}

protocol_init-Initialised_example :
    Initialised bench_quic one_byte
      (λ b. b.log)
      bench_Queues
      bench_Numbers
      fresh
      (some (1 ∷ []))
      (h3zero_protocol_init bench_quic one_byte 1532 fresh)
unfolding settings_for
protocol_init-Initialised_example =
    protocol_init-Initialised bench_quic one_byte (λ b. b.log) bench_Queues bench_Numbers 1532 fresh
