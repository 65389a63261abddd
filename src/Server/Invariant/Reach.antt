-- ===== src/Server/Invariant/Reach.antt =====
-- What the server of src/quic_server.c does, in rounds of its threads and in single operations, and
-- that it stays sound.
use m_quic.Prelude.{ℕ, suc, ◌≡◌, refl, arith, inr, Bool, true, false, ℤ}
use m_quic.Prelude.{Option, some, replicate, if◌then◌else◌}
use m_quic.PathAlgo.{path_algo_create, path_algo_refresh}
use m_quic.Quic.{Quic}
use m_quic.Server.{Server, max_paths, unbound, keepalive_interval_us}
use m_quic.WebTransport.{h3_send_status_200_headers}
use m_quic.Server.Frames.{Turn, wait, capture, pop_ready_frame, camera_check, backlog_full}
use m_quic.Server.Frames.Laws.{pop_ready_frame-IsValid, camera_check-IsValid}
use m_quic.Server.Bindings.{ensure_stream_for_path}
use m_quic.Server.Bindings.Table.{IsBound, unbound-IsBound}
use m_quic.Server.Network.{Locals, network_round}
use m_quic.Server.Network.Round.{network_round-Allows}
use m_quic.Server.Network.Answers.{Allows-some}
use m_quic.PathAlgo.{PathAlgo}
use m_quic.Server.Handlers.{
  Capture, CreateThread, WtEvent, close, stop_sending, stream_reset, other, with_frames,
  capture_turn, camera_round, camera_wt_callback, camera_path_callback, start_threads,
}
use m_quic.Server.Handlers.Laws.{capture_turn-IsValid}
use m_quic.Server.Invariant.{IsSound, IsSound-IsKept}

module _ {W : Type 0} (q : Quic W) (n : ℕ) (camera : Capture W) (create : CreateThread W) where
  -- A single operation of the server on what its threads share: a callback, the start of the network
  -- thread, an operation of one of the two threads, and anything that happens outside.
  pub data Deed (s u : Server W) : Type 0 where
    session_event : (e : WtEvent) → u ≡ camera_wt_callback q e s → Deed s u
    request :
        (is_connect : Bool) (sid : ℕ)
        → u ≡ (camera_path_callback q create is_connect sid s).1
        → Deed s u
    starts :
        (allocated : Bool)
        → u ≡ record s {
          ctx = record s.ctx {
            algo = path_algo_refresh (path_algo_create allocated);
            bind = replicate max_paths unbound;
          };
        }
        → Deed s u
    checks :
        (start now_us : ℕ)
        → u ≡ with_frames q (camera_check start now_us s.ctx.frames).1 s
        → Deed s u
    takes : u ≡ capture_turn q camera s → Deed s u
    pops : u ≡ with_frames q (pop_ready_frame s.ctx.frames).1 s → Deed s u
    ensures : (pidx r : ℤ) → ensure_stream_for_path q (suc n) pidx s ≡ some (r, u) → Deed s u
    stops : u ≡ record s { ctx = record s.ctx { is_sending = false } } → Deed s u
    schedules : (a : Option PathAlgo) → u ≡ record s { ctx = record s.ctx { algo = a } } → Deed s u
    happens : (w : W) → u ≡ record s { world = w } → Deed s u

  -- Several of them, one after the other.
  pub data Deeds (s : Server W) : Server W → Type 0 where
    nothing : Deeds s s
    also : {t u : Server W} → Deeds s t → Deed t u → Deeds s u

  -- What other threads do in any state is some of these operations.
  abbrev pub AreDeeds : (Server W → Server W) → Type 0
  AreDeeds others = (s : Server W) → Deeds s (others s)

  -- One thing that the server does: a round of one of its threads, between the operations of which
  -- other threads act, or a single operation.
  pub data Activity (s u : Server W) : Type 0 where
    sends :
        (others : Server W → Server W) (l : Locals) (out : Option Locals)
        → AreDeeds others
        → network_round q (suc n) others l s ≡ some (out, u)
        → Activity s u
    captures :
        (others : Server W → Server W) (start : ℕ)
        → AreDeeds others
        → u ≡ (camera_round q camera others start s).1
        → Activity s u
    acts : Deed s u → Activity s u

  pub data Reach (s : Server W) : Server W → Type 0 where
    here : Reach s s
    next : {t u : Server W} → Reach s t → Activity t u → Reach s u

  event-IsSound : (e : WtEvent) (s : Server W) → IsSound s → IsSound (camera_wt_callback q e s)
  unfolding camera_wt_callback
  event-IsSound close s v = record { buffers = v.buffers; table = v.table }
  event-IsSound stop_sending s v = record { buffers = v.buffers; table = v.table }
  event-IsSound stream_reset s v = record { buffers = v.buffers; table = v.table }
  event-IsSound other s v = v

  start_threads_keeps :
      (s : Server W)
      → ((start_threads q create s).1.ctx.frames ≡ s.ctx.frames)
        × ((start_threads q create s).1.ctx.bind ≡ s.ctx.bind)
  unfolding start_threads
  start_threads_keeps s = ground arith

  request_keeps :
      (is_connect : Bool) (sid : ℕ) (s : Server W)
      → ((camera_path_callback q create is_connect sid s).1.ctx.frames ≡ s.ctx.frames)
        × ((camera_path_callback q create is_connect sid s).1.ctx.bind ≡ s.ctx.bind)
  unfolding camera_path_callback
  request_keeps is_connect sid s =
      let w1 = q.set_callback (q.enable_keep_alive keepalive_interval_us s.world) in
      let (ret, w2) = h3_send_status_200_headers q sid w1 in
      let s1 : Server W = record {
        ctx = record s.ctx { has_cnx = true; control_stream_id = sid };
        world = w2;
      } in
      ground (arith, start_threads_keeps s1)

  capture_turn-IsBound :
      (s : Server W) → IsBound s.ctx.bind → IsBound (capture_turn q camera s).ctx.bind
  unfolding capture_turn
  capture_turn-IsBound s v = v

  Deed-IsSound : {s u : Server W} → Deed s u → IsSound s → IsSound u
  Deed-IsSound {s} (session_event e eq) v = rw eq (event-IsSound e s v)
  Deed-IsSound {s} (request is_connect sid e) v =
      let (frames, bind) = request_keeps is_connect sid s in
      rw e (record { buffers = rw frames v.buffers; table = rw bind v.table })
  Deed-IsSound {s} (starts allocated e) v =
      rw e (record { buffers = v.buffers; table = unbound-IsBound })
  Deed-IsSound {s} (checks start now_us e) v =
      rw e (record { buffers = camera_check-IsValid start now_us v.buffers; table = v.table })
  Deed-IsSound {s} (takes e) v = rw e (record {
    buffers = capture_turn-IsValid q camera s v.buffers;
    table = capture_turn-IsBound s v.table;
  })
  Deed-IsSound {s} (pops e) v =
      rw e (record { buffers = pop_ready_frame-IsValid v.buffers; table = v.table })
  Deed-IsSound {s} {u} (ensures pidx r e) v = (IsSound-IsKept q n).keeps_ensure pidx s u r v e
  Deed-IsSound {s} (stops e) v = rw e (record { buffers = v.buffers; table = v.table })
  Deed-IsSound {s} (schedules a e) v = rw e (record { buffers = v.buffers; table = v.table })
  Deed-IsSound {s} (happens w e) v = rw e (record { buffers = v.buffers; table = v.table })

  Deeds-IsSound : {s u : Server W} → Deeds s u → IsSound s → IsSound u
  Deeds-IsSound nothing v = v
  Deeds-IsSound (also ds d) v = Deed-IsSound d (Deeds-IsSound ds v)

  turn-IsSound :
      (others : Server W → Server W) (turn : Turn) (s1 : Server W)
      → ((s : Server W) → IsSound s → IsSound (others s))
      → IsSound s1
      → IsSound
          (elim turn as (λ (t : Turn). ℕ × Server W) [
            | wait start' ↦ (start', record s1 { world = q.usleep 1000 s1.world })
            | capture start' ↦ (start', capture_turn q camera (others s1))
          ]).1
  turn-IsSound others (wait start) s1 keeps v = record { buffers = v.buffers; table = v.table }
  turn-IsSound others (capture start) s1 keeps v = Deed-IsSound (takes refl) (keeps s1 v)

  camera_round-IsSound :
      (others : Server W → Server W) (start : ℕ) (s : Server W)
      → ((s : Server W) → IsSound s → IsSound (others s))
      → IsSound s
      → IsSound (camera_round q camera others start s).1
  unfolding camera_round
  camera_round-IsSound others start s keeps v =
      let (now_us, w1) = q.current_time s.world in
      let (turn, frames) = camera_check start now_us s.ctx.frames in
      turn-IsSound others turn
        (record (with_frames q frames s) {
          world = if backlog_full s.ctx.frames then w1 else s.world;
        })
        keeps (record { buffers = camera_check-IsValid start now_us v.buffers; table = v.table })

  Activity-IsSound : {s u : Server W} → Activity s u → IsSound s → IsSound u
  Activity-IsSound {s} {u} (sends others l out deeds e) v =
      Allows-some (Unit {0}) IsSound _ out u e (
        network_round-Allows q (Unit {0}) (inr tt) n others IsSound (IsSound-IsKept q n)
          (λ s1 v1. Deeds-IsSound (deeds s1) v1) l s v)
  Activity-IsSound {s} (captures others start deeds e) v =
      rw e (camera_round-IsSound others start s (λ s1 v1. Deeds-IsSound (deeds s1) v1) v)
  Activity-IsSound (acts d) v = Deed-IsSound d v

  -- From a sound state on the server stays sound, in whatever order its threads make their rounds, its
  -- callbacks are called and single operations of its threads are done, whatever picoquic and the
  -- camera answer, and whichever of these operations come between two steps of a round. Sound means
  -- that the two buffers have the indices 0 and 1 in some order and no stored size beyond their own,
  -- and that each ready binding names its own index and a unidirectional stream of the server's. A
  -- capture and the store of its frame are one operation here.
  pub Reach-IsSound : {s u : Server W} → IsSound s → Reach s u → IsSound u
  Reach-IsSound v here = v
  Reach-IsSound v (next r st) = Activity-IsSound st (Reach-IsSound v r)
