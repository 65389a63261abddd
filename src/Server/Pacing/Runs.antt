-- ===== src/Server/Pacing/Runs.antt =====
-- The wait for pacing at a picoquic that never lets a path send.
use m_quic.Prelude.{ℕ, ◌≡◌, refl, arith, false, [], ◌∷◌, Option, none}
use m_quic.PathAlgo.{QuicPath}
use m_quic.Quic.{Quic}
use m_quic.Quic.Bench.{Bench, bench_quic}
use m_quic.Quic.Laws.{Refuses}
use m_quic.Server.Pacing.{send_with_pacing}
use m_quic.Server.Pacing.Laws.{send_with_pacing_spins}

abbrev full_quic : Quic Bench
full_quic = record bench_quic { is_sending_authorized = λ path now next b. (false, next, b) }

abbrev Always : Option QuicPath → ℕ → Bench → Type 0
Always path now b = Unit {0}

full_Refuses : Refuses full_quic Always
full_Refuses = record {
  lowers = λ path now next b. omega arith;
  refuses = λ path now next b e. refl;
  stays_empty = λ path now next b e. tt;
}

abbrev idle : Bench
idle = record { time = 5; room = 1; state = 13; array = []; next_id = 3; contexts = 1; log = [] }

send_with_pacing_spins_example : send_with_pacing full_quic 1000 none 3 (7 ∷ []) false idle ≡ none
send_with_pacing_spins_example =
    send_with_pacing_spins full_quic Always full_Refuses 1000 none 3 (7 ∷ []) false idle tt
