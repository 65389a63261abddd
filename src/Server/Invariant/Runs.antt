-- ===== src/Server/Invariant/Runs.antt =====
-- A run of the whole server at a small concrete picoquic: the session is asked for, the network
-- thread starts, the camera stores a frame, and the session is closed.
use m_quic.Prelude.{arith, refl, true, pos, [], ◌∷◌, replicate}
use m_quic.Quic.Bench.{Bench, bench_quic}
use m_quic.Prelude.{ℕ, List, Option, some, none, ◌≡◌}
use m_quic.Server.Network.{Locals, network_round}
use m_quic.Server.Network.Round.{IsKept, network_round-Answers}
use m_quic.Quic.Bench.{bench_Permits}
use m_quic.Server.Invariant.Reach.{sends}
use m_quic.Server.{Server, max_paths, unbound}
use m_quic.Server.Handlers.{
  Capture, CreateThread, close, stop_sending, camera_round, camera_path_callback,
  camera_wt_callback,
}
use m_quic.PathAlgo.{path_algo_create, path_algo_refresh}
use m_quic.Server.Invariant.{IsSound}
use m_quic.Server.Invariant.Reach.{
  AreDeeds, nothing, also, session_event, request, starts, checks, Reach, here, next, acts,
  captures, Reach-IsSound,
}
use m_quic.Server.Handlers.{with_frames, initial_context}
use m_quic.Server.Invariant.{initial_context-IsSound}
use m_quic.Server.Frames.{Two}
use m_quic.Server.Frames.{camera_check}

abbrev camera : Capture Bench
camera size b = (pos 2, 8 ∷ 9 ∷ [], b)

abbrev create : CreateThread Bench
create i b = (true, b)

abbrev memory : Two (List ℕ)
memory = record { at_zero = 0 ∷ 0 ∷ 0 ∷ []; at_one = 0 ∷ 0 ∷ 0 ∷ [] }

abbrev stopped : Server Bench
stopped = record {
  ctx = initial_context memory;
  world = record {
    time = 0;
    room = 3;
    state = 13;
    array = [];
    next_id = 3;
    contexts = 1;
    log = [];
  };
}

abbrev asked : Server Bench
asked = (camera_path_callback bench_quic create true 4 stopped).1

abbrev started : Server Bench
started = record asked {
  ctx = record asked.ctx {
    algo = path_algo_refresh (path_algo_create true);
    bind = replicate max_paths unbound;
  };
}

-- Before the capture the buffers are checked once more, and the client stops the session.
abbrev busy : Server Bench → Server Bench
busy s =
    camera_wt_callback bench_quic stop_sending
      (with_frames bench_quic (camera_check 0 7 s.ctx.frames).1 s)

busy-AreDeeds : AreDeeds bench_quic 1 camera create busy
busy-AreDeeds s = also (also nothing (checks 0 7 refl)) (session_event stop_sending refl)

abbrev taken : Server Bench
taken = (camera_round bench_quic camera busy 0 started).1

-- A call that answers is the pair of what it answers and leaves.
answer_of :
    {A S : Type 0} (o : Option (A × S)) (a0 : A) (s0 : S)
    → (a : A) × (s : S) × (o ≡ some (a, s))
    → o ≡ some (elim o [ none ↦ a0 | some (a, s) ↦ a ], elim o [ none ↦ s0 | some (a, s) ↦ s ])
answer_of none a0 s0 (a, s, e) = absurd (ground (arith, e))
answer_of (some (a, s)) a0 s0 h = refl

abbrev locals : Locals
locals = record {
  cur_idx = 0;
  cur_path = none;
  last_activity_us = 0;
  fps_window_start_ms = 0;
  fps_count = 0;
}

abbrev a_round : Option (Option Locals × Server Bench)
a_round = network_round bench_quic 2 busy locals taken

-- What the round of the network thread leaves.
abbrev sent : Server Bench
sent = elim a_round [ none ↦ taken | some (out, s) ↦ s ]

abbrev goes_on : Option Locals
goes_on = elim a_round [ none ↦ none | some (out, s) ↦ out ]

anything-IsKept : IsKept bench_quic 2 (λ s. Unit {0})
anything-IsKept = record {
  keeps_world = λ s w v. tt;
  keeps_algo = λ s a v. tt;
  keeps_stop = λ s v. tt;
  keeps_count = λ s k v. tt;
  keeps_pop = λ s v. tt;
  keeps_ensure = λ pidx s s' r v e. tt;
}

a_round_answers : a_round ≡ some (goes_on, sent)
a_round_answers =
    let (out, s, e, v) =
      network_round-Answers bench_quic bench_Permits 1 busy (λ s. Unit {0}) anything-IsKept
        (λ s v. tt) locals taken tt in
    answer_of a_round none taken (out, s, e)

abbrev closed : Server Bench
closed = camera_wt_callback bench_quic close sent

a_session : Reach bench_quic 1 camera create stopped closed
a_session =
    next {t = sent}
      (next {t = taken}
        (next {t = started}
          (next {t = asked} (next here (acts (request true 4 refl))) (acts (starts true refl)))
          (captures busy 0 busy-AreDeeds refl))
        (sends busy locals goes_on busy-AreDeeds a_round_answers))
      (acts (session_event close refl))

Reach-IsSound_example : IsSound closed
Reach-IsSound_example =
    Reach-IsSound bench_quic 1 camera create (initial_context-IsSound memory stopped.world)
      a_session
