-- ===== src/PathAlgo/Probe.antt =====
-- What `path_algo_pick_probe_path` chooses, and how often.
use m_quic.Prelude.{ℕ, ◌+◌, ◌^◌, ◌<◌, ◌≡◌, arith, ◌⊎◌, inl, inr}
use m_quic.Prelude.{ℤ, pos, minus_one, some}
use m_quic.Prelude.{length, ◌∙◌}
use m_quic.PathAlgo.{Paths, PathAlgo}
use m_quic.Prelude.{refl, Option, none, List, [], ◌∷◌}
use m_quic.PathAlgo.{probe_interval_us, path_algo_pick_probe_path, path_algo_pick_send_path}
use m_quic.PathAlgo.{path_algo_refresh, path_algo_on_sent, path_algo_on_idle}
use m_quic.PathAlgo.Send.{pick_send_path_range}

-- Before the next probe is due, or with fewer than two paths, the answer is -1 and nothing changes.
pub pick_probe_path_early :
    (a : PathAlgo) (ps : Paths) (now_us : ℕ)
    → (now_us < a.next_probe_us) ⊎ (length ps < 2)
    → path_algo_pick_probe_path (some a) (some ps) now_us ≡ (minus_one, some a)
unfolding path_algo_pick_probe_path
pick_probe_path_early a ps now_us (inl h) = ground arith
pick_probe_path_early a ps now_us (inr h) = ground arith

-- A call of the scheduler other than for a probe.
pub data AlgoCall : Type 0 where
  pick_send : (cnx : Option Paths) → AlgoCall
  refresh : AlgoCall
  on_sent : (idx : ℤ) (bytes : ℕ) → AlgoCall
  on_idle : (now_us : ℕ) → AlgoCall

abbrev pub algo_call : AlgoCall → Option PathAlgo → Option PathAlgo
algo_call (pick_send cnx) a = (path_algo_pick_send_path a cnx).1
algo_call refresh a = path_algo_refresh a
algo_call (on_sent idx bytes) a = path_algo_on_sent a idx bytes
algo_call (on_idle now_us) a = path_algo_on_idle a now_us

-- Several such calls, one after the other.
unfoldable pub algo_calls : List AlgoCall → Option PathAlgo → Option PathAlgo
algo_calls [] a = a
algo_calls (c ∷ cs) a = algo_calls cs (algo_call c a)

algo_call_keeps :
    (c : AlgoCall) (a : PathAlgo)
    → (b : PathAlgo) × (algo_call c (some a) ≡ some b) × (b.next_probe_us ≡ a.next_probe_us)
unfolding path_algo_refresh path_algo_on_sent path_algo_on_idle
algo_call_keeps (pick_send none) a = (a, unfold path_algo_pick_send_path in refl, refl)
algo_call_keeps (pick_send (some [])) a = (a, unfold path_algo_pick_send_path in refl, refl)
algo_call_keeps (pick_send (some (p ∷ ps))) a =
    let (in_range, recorded) = pick_send_path_range a (p ∷ ps) (omega arith) in
    (record a { last_send = (path_algo_pick_send_path (some a) (some (p ∷ ps))).0 }, recorded, refl)
algo_call_keeps refresh a = (a, refl, refl)
algo_call_keeps (on_sent idx bytes) a = (record a { last_send = idx }, refl, refl)
algo_call_keeps (on_idle now_us) a = (a, refl, refl)

algo_calls_keep :
    (cs : List AlgoCall) (a : PathAlgo)
    → (b : PathAlgo) × (algo_calls cs (some a) ≡ some b) × (b.next_probe_us ≡ a.next_probe_us)
unfolding algo_calls
algo_calls_keep [] a = (a, refl, refl)
algo_calls_keep (c ∷ cs) a =
    let (b, called, kept) = algo_call_keeps c a in
    let (d, rest, kept') = algo_calls_keep cs b in (d, rw called rest, kept' ∙ kept)

-- After a probe at `now_us`, where the time 250 ms later fits 64 bits, whatever other calls the
-- scheduler gets and however the paths of the connection change in between, a call for a probe
-- before 250 ms have passed answers -1 and changes nothing.
pub probe_spacing :
    (a b : PathAlgo) (ps ps' : Paths) (cs : List AlgoCall) (now_us later i : ℕ)
    → path_algo_pick_probe_path (some a) (some ps) now_us ≡ (pos i, some b)
    → later < now_us + probe_interval_us
    → now_us + probe_interval_us < 2 ^ 64
    → path_algo_pick_probe_path (algo_calls cs (some b)) (some ps') later
      ≡ (minus_one, algo_calls cs (some b))
unfolding path_algo_pick_probe_path
probe_spacing a b ps ps' cs now_us later i e h fits =
    let (d, called, kept) = algo_calls_keep cs b in
    let set : b.next_probe_us ≡ now_us + probe_interval_us = ground arith in
    rw called (pick_probe_path_early d ps' later (inl (rw (kept, set) h)))
