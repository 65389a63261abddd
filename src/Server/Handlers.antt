-- ===== src/Server/Handlers.antt =====
-- The rest of src/quic_server.c: the loop of `camera_thread_func`, the callbacks
-- `camera_wt_callback` and `camera_path_callback`, and `run_server`, as the list of what it
-- acquires, sets up and releases.
pub mod Laws
mod Runs
use m_quic.Prelude.{
  ℕ, zero, suc, ◌+◌, if◌then◌else◌, Bool, true, false, not, ◌&&◌, ℤ, pos, minus_one, is_ok,
}
use m_quic.Prelude.{List, [], ◌∷◌, ◌++◌, Option, none, some}
use m_quic.Quic.{Quic}
use m_quic.Server.{Server, StreamerContext, frame_interval_us, keepalive_interval_us}
use m_quic.Server.Frames.{
  FrameBuffers, Turn, wait, capture, backlog_full, camera_check, store_frame,
}
use m_quic.Server.Frames.{fill_buffer, Two}
use m_quic.Server.{frame_buffer_bytes, max_frames_default, max_paths, unbound}
use m_quic.Prelude.{replicate}
use m_quic.Prelude.Text.{codes}
use m_quic.WebTransport.{h3_send_status_200_headers}

-- `camera_capture_jpeg` into a buffer of some size: its answer and the bytes that it wrote.
abbrev pub Capture : Type 0 → Type 0
Capture W = ℕ → W → ℤ × List ℕ × W

-- `pthread_create` for the camera's thread, 0, and the network's, 1: whether it answered 0.
abbrev pub CreateThread : Type 0 → Type 0
CreateThread W = ℕ → W → Bool × W

-- `picoquic_call_back_event_t`, as far as the session's callback tells it apart.
pub data WtEvent : Type 0 where
  close : WtEvent
  stop_sending : WtEvent
  stream_reset : WtEvent
  other : WtEvent

module _ {W : Type 0} (q : Quic W) where
  abbrev pub with_frames : FrameBuffers → Server W → Server W
  with_frames f s = record s { ctx = record s.ctx { frames = f } }

  -- A capture into the active buffer, and the pause behind it.
  unfoldable pub capture_turn : Capture W → Server W → Server W
  capture_turn camera s =
      let idx = s.ctx.frames.active_idx in
      let (jpeg_size, bytes, w) = camera s.ctx.frames.frame_buffer_size s.world in
      let stored = store_frame idx jpeg_size (fill_buffer idx bytes s.ctx.frames) in
      record (with_frames stored s) { world = q.usleep frame_interval_us w }

  -- One round of the camera's loop, with `backlog_start_us`. The clock is read behind a backlog
  -- only; `others` is what the other threads do before the capture.
  unfoldable pub camera_round : Capture W → (Server W → Server W) → ℕ → Server W → ℕ × Server W
  camera_round camera others start s =
      let (now_us, w1) = q.current_time s.world in
      let full = backlog_full s.ctx.frames in
      let (turn, frames) = camera_check start now_us s.ctx.frames in
      let s1 = record (with_frames frames s) { world = if full then w1 else s.world } in
      elim turn [
        | wait start' ↦ (start', record s1 { world = q.usleep 1000 s1.world })
        | capture start' ↦ (start', capture_turn camera (others s1))
      ]

  -- The thread, with a number of rounds.
  unfoldable pub camera_thread_func :
      ℕ → Capture W → (Server W → Server W) → ℕ → Server W → Option (Server W)
  camera_thread_func zero camera others start s = none
  camera_thread_func (suc n) camera others start s =
      let s0 = others s in
      let (start', s1) = camera_round camera others start s0 in
      let later = camera_thread_func n camera others start' s1 in
      if s0.ctx.is_sending then later else some s0

  unfoldable pub camera_wt_callback : WtEvent → Server W → Server W
  camera_wt_callback other s = s
  camera_wt_callback close s = record s { ctx = record s.ctx { is_sending = false } }
  camera_wt_callback stop_sending s = record s { ctx = record s.ctx { is_sending = false } }
  camera_wt_callback stream_reset s = record s { ctx = record s.ctx { is_sending = false } }

  -- The threads are created, unless they run.
  unfoldable pub start_threads : CreateThread W → Server W → ℤ × Server W
  start_threads create s =
      let started = record s { ctx = record s.ctx { frame_count = 0; is_sending = true } } in
      let (camera_ok, w1) = create 0 s.world in
      let (network_ok, w2) = create 1 w1 in
      let failed = λ (w : W). record s {
        ctx = record s.ctx { frame_count = 0; is_sending = false };
        world = w;
      } in
      if s.ctx.is_sending
      then (pos 0, s)
      else if not camera_ok
      then (minus_one, failed w1)
      else if not network_ok
      then (minus_one, failed w2)
      else (pos 0, record started { world = w2 })

  -- `is_connect` is whether the event is a CONNECT, on stream `stream_id`.
  unfoldable pub camera_path_callback : CreateThread W → Bool → ℕ → Server W → ℤ × Server W
  camera_path_callback create is_connect stream_id s =
      let w1 = q.set_callback (q.enable_keep_alive keepalive_interval_us s.world) in
      let (ret, w2) = h3_send_status_200_headers q stream_id w1 in
      let s1 = record s {
        ctx = record s.ctx { has_cnx = true; control_stream_id = stream_id };
        world = w2;
      } in
      if not is_connect
      then (pos 0, s)
      else if is_ok ret
      then start_threads create s1
      else (minus_one, s1)

-- What `run_server` acquires and releases. A started thread is released by joining it.
pub data Resource : Type 0 where
  log_file : Resource
  buffer : ℕ → Resource
  fb_lock : Resource
  camera_handle : Resource
  quic : Resource

-- The fields of `picoquic_tp_t` that are set.
pub record DefaultTp : Type 0 where
  pub is_multipath_enabled : ℕ
  pub initial_max_path_id : ℕ
  pub enable_time_stamp : ℕ
  pub max_datagram_frame_size : ℕ

-- What is set up on the way: the table of paths, each with its callback, and then, in picoquic, the
-- default transport parameters, the logs and the ALPN hook, before the packet loop runs on a port.
pub data Setup : Type 0 where
  path_table : List (List ℕ) → Setup
  set_default_tp : DefaultTp → Setup
  set_log_level : ℕ → Setup
  set_binlog : List ℕ → Setup
  set_qlog : List ℕ → Setup
  use_unique_log_names : ℕ → Setup
  set_alpn_select_fn : Setup
  packet_loop : ℕ → Setup

pub data Action : Type 0 where
  setup : Setup → Action
  acquire : Resource → Action
  release : Resource → Action
  join_threads : Action

abbrev start_of_run : List Action
start_of_run = acquire log_file ∷ acquire (buffer 0) ∷ acquire (buffer 1) ∷ acquire fb_lock ∷ []

abbrev free_buffers : List Action
free_buffers = release (buffer 0) ∷ release (buffer 1) ∷ []

-- The context that the run begins with, for what is in the memory of the two buffers.
unfoldable pub initial_context : Two (List ℕ) → StreamerContext
initial_context memory = record {
  has_camera = true;
  frames = record {
    frame_buffer = memory;
    frame_buffer_size = frame_buffer_bytes;
    ready_size = record { at_zero = 0; at_one = 0 };
    has_frame = record { at_zero = false; at_one = false };
    active_idx = 0;
    ready_idx = 1;
  };
  is_sending = false;
  frame_count = 0;
  max_frames = max_frames_default;
  has_cnx = false;
  control_stream_id = 0;
  algo = none;
  bind = replicate max_paths unbound;
}

abbrev multipath_tp : DefaultTp
multipath_tp = record {
  is_multipath_enabled = 1;
  initial_max_path_id = 3;
  enable_time_stamp = 3;
  max_datagram_frame_size = 1280;
}

abbrev set_up_quic : List Action
set_up_quic =
    setup (set_default_tp multipath_tp)
    ∷ setup (set_log_level 1)
    ∷ setup (set_binlog (codes "binlog"))
    ∷ setup (set_qlog (codes "qlogs"))
    ∷ setup (use_unique_log_names 1)
    ∷ setup set_alpn_select_fn
    ∷ setup (packet_loop 4433)
    ∷ []

abbrev set_up_paths : Action
set_up_paths = setup (path_table (codes "/camera" ∷ []))

-- `run_server`, for what the allocations, the camera, picoquic and its packet loop answer, and for
-- whether `is_sending` is set when the loop is over.
unfoldable pub run_server : Bool → Bool → Bool → Bool → ℤ → Bool → ℤ × List Action
run_server memory_0 memory_1 has_camera has_quic ret is_sending =
    let joined : List Action = if is_sending then join_threads ∷ [] else [] in
    if not memory_0
    then (minus_one, acquire log_file ∷ [])
    else if not memory_1
    then (minus_one, acquire log_file ∷ acquire (buffer 0) ∷ release (buffer 0) ∷ [])
    else if not has_camera
    then (minus_one, start_of_run ++ (release fb_lock ∷ free_buffers))
    else if not has_quic
    then (
      minus_one,
      start_of_run
          ++ (acquire camera_handle
              ∷ set_up_paths
              ∷ release camera_handle
              ∷ release fb_lock
              ∷ free_buffers),
    )
    else (
      ret,
      start_of_run
          ++ (acquire camera_handle
              ∷ set_up_paths
              ∷ acquire quic
              ∷ (set_up_quic
                  ++ (release quic
                      ∷ (joined
                          ++ (release camera_handle
                              ∷ release fb_lock
                              ∷ (free_buffers ++ (release log_file ∷ []))))))),
    )
