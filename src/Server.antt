-- ===== src/Server.antt =====
-- The streaming server, src/quic_server.c: its constants and its shared context. The children model
-- its parts: `Frames` the double buffer and the camera thread, `Pacing` the paced sends, `Bindings`
-- the streams bound to paths, `Network` the network thread, `Handlers` the callbacks.
pub mod Frames
pub mod Pacing
pub mod Bindings
pub mod Network
pub mod Handlers
pub mod Invariant
mod Runs
use m_quic.Prelude.{ℕ, ◌*◌, ◌/◌, Bool, false, List, Option, none, some}
use m_quic.Prelude.Effect.{Eff}
use m_quic.PathAlgo.{PathAlgo}
use Frames.{FrameBuffers}

abbrev pub target_fps : ℕ
target_fps = 30

abbrev pub frame_interval_us : ℕ
frame_interval_us = 1000000 / target_fps

abbrev pub mtu_chunk_bytes : ℕ
mtu_chunk_bytes = 16 * 1024

abbrev pub keepalive_interval_us : ℕ
keepalive_interval_us = 250000

abbrev pub one_second_us : ℕ
one_second_us = 1000000

abbrev pub frame_buffer_bytes : ℕ
frame_buffer_bytes = 1024 * 1024

abbrev pub max_frames_default : ℕ
max_frames_default = 1000000000

abbrev pub max_paths : ℕ
max_paths = 8

-- `mp_binding_t`
pub record Binding : Type 0 where
  pub path_idx : ℕ
  pub sid : ℕ
  pub ready : Bool

-- `memset` to zero
abbrev pub unbound : Binding
unbound = record { path_idx = 0; sid = 0; ready = false }

-- `streamer_context_t` with `mp_state_t`. The lock, the thread handles and the HTTP/3 context are
-- not kept: no decision reads them. `has_cnx` is whether `cnx` is set.
pub record StreamerContext : Type 0 where
  pub has_camera : Bool
  pub frames : FrameBuffers
  pub is_sending : Bool
  pub frame_count : ℕ
  pub max_frames : ℕ
  pub has_cnx : Bool
  pub control_stream_id : ℕ
  pub algo : Option PathAlgo
  pub bind : List Binding

-- The context beside the world that picoquic's calls change.
pub record Server (W : Type 0) : Type 0 where
  pub ctx : StreamerContext
  pub world : W

-- A call that leaves the context alone.
abbrev pub on_world : {W A : Type 0} → Eff W A → Eff (Server W) A
on_world m s = elim (m s.world) [ none ↦ none | some (a, w) ↦ some (a, record s { world = w }) ]
