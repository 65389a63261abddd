-- ===== src/Client/Control/Runs.antt =====
-- A control message at a concrete connection.
use m_quic.Prelude.{ℕ, ◌≡◌, ◌⊎◌, pos, minus_one, [], ◌∷◌, ◌++◌, take, bit_and}
use m_quic.Quic.Bench.{Bench, bench_quic, bench_Queues}
use m_quic.Client.Control.{send_wt_control}
use m_quic.Client.Control.Laws.{control_writes, send_wt_control-queues}

abbrev idle : Bench
idle = record { time = 0; room = 5; state = 13; array = []; next_id = 2; contexts = 0; log = [] }

send_wt_control-queues_example :
    let (r, w') = send_wt_control bench_quic 4 0x10 (0 ∷ 30 ∷ []) idle in
    ((r ≡ pos 0) × (bit_and 2 0x3 ≡ 0x2) × (w'.log ≡ [] ++ control_writes 2 4 0x10 (0 ∷ 30 ∷ [])))
    ⊎ ((r ≡ minus_one) × (k : ℕ) × (w'.log ≡ [] ++ take k (control_writes 2 4 0x10 (0 ∷ 30 ∷ []))))
send_wt_control-queues_example =
    send_wt_control-queues bench_quic (λ b. b.log) bench_Queues 4 0x10 (0 ∷ 30 ∷ []) idle
