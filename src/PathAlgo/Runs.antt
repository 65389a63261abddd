-- ===== src/PathAlgo/Runs.antt =====
-- Concrete runs of the scheduler, and its theorems at concrete inputs.
use m_quic.Prelude.{ℕ, ◌≤◌, ◌<◌, ◌≡◌, refl, arith, ◌⊎◌, inr}
use m_quic.Prelude.{pos, minus_one, Bool, true, false, none, some}
use m_quic.Prelude.{[], ◌∷◌}
use m_quic.PathAlgo.{QuicPath, Paths, path_at, PathAlgo, is_path_sendable, rank_rtt}
use m_quic.PathAlgo.{send_scan, is_probe, probe_scan, path_algo_pick_send_path}
use m_quic.PathAlgo.{path_algo_pick_probe_path}
use m_quic.PathAlgo.Send.{pick_send_path_best}
use m_quic.PathAlgo.Probe.{pick_probe_path_early, probe_spacing}
use m_quic.PathAlgo.Probe.{AlgoCall, pick_send, refresh, on_sent, on_idle, algo_calls}
use m_quic.Prelude.{List}

abbrev path : Bool → ℕ → ℕ → QuicPath
path verified rtt uid = record {
  first_tuple = some (record { challenge_verified = verified });
  path_is_demoted = false;
  rtt_min = rtt;
  smoothed_rtt = 0;
  unique_path_id = uid;
}

abbrev three_paths : Paths
three_paths = some (path false 5 0) ∷ some (path true 40 1) ∷ some (path true 20 2) ∷ []

abbrev fresh : PathAlgo
fresh = record { last_send = minus_one; next_probe_us = 0 }

abbrev after_second : PathAlgo
after_second = record { last_send = pos 2; next_probe_us = 0 }

pick_fastest : path_algo_pick_send_path (some fresh) (some three_paths) ≡ (pos 2, some after_second)
unfolding path_algo_pick_send_path send_scan is_path_sendable rank_rtt
pick_fastest = refl

pick_send_path_best_example :
    (k : ℕ) × (k < 3)
    × (is_path_sendable (path_at three_paths k) ≡ true)
    × (rank_rtt (path_at three_paths k) ≤ rank_rtt (path_at three_paths 1))
    × ((k ≤ 1) ⊎ (rank_rtt (path_at three_paths k) < rank_rtt (path_at three_paths 1)))
    × (path_algo_pick_send_path (some fresh) (some three_paths)
        ≡ (pos k, some (record fresh { last_send = pos k })))
unfolding is_path_sendable rank_rtt
pick_send_path_best_example = pick_send_path_best fresh three_paths 1 refl (omega arith)

abbrev unverified : Paths
unverified = some (path false 5 0) ∷ none ∷ []

-- From path 2 the search goes round to path 0.
probe_goes_round :
    path_algo_pick_probe_path (some after_second) (some three_paths) 7
    ≡ (pos 0, some (record after_second { next_probe_us = 250007 }))
unfolding path_algo_pick_probe_path probe_scan is_probe
probe_goes_round = refl

pick_probe_path_early_example :
    path_algo_pick_probe_path (some fresh) (some (none ∷ [])) 7 ≡ (minus_one, some fresh)
pick_probe_path_early_example = pick_probe_path_early fresh (none ∷ []) 7 (inr (omega arith))

-- A send on path 1 and a choice over two paths come between the probe and the next call.
abbrev meanwhile : List AlgoCall
meanwhile = on_sent (pos 1) 1200 ∷ pick_send (some unverified) ∷ refresh ∷ on_idle 9 ∷ []

probe_spacing_example :
    path_algo_pick_probe_path
      (algo_calls meanwhile (some (record after_second { next_probe_us = 250007 })))
      (some unverified)
      250006
    ≡ (minus_one, algo_calls meanwhile (some (record after_second { next_probe_us = 250007 })))
probe_spacing_example =
    probe_spacing after_second (record after_second { next_probe_us = 250007 }) three_paths
      unverified meanwhile 7 250006 0 probe_goes_round (omega arith) (omega arith)
