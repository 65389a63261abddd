-- ===== src/Server/Frames/Interleave.antt =====
-- The camera thread and the network thread of src/quic_server.c, interleaved on the double buffer
-- between their critical sections: who writes which buffer while the other reads.
pub mod Safety
pub mod Order
mod Runs
use m_quic.Prelude.{
  ℕ, ◌+◌, ◌-◌, ◌%◌, ◌^◌, ◌<◌, ◌≤◌, ◌≡◌, Bool, true, false, List, Option, none, some,
}
use m_quic.Prelude.{ℤ, ◌==◌, if◌then◌else◌, ltb}
use m_quic.Server.Frames.{FrameBuffers, pop_ready_frame, backlog_full, discard_ready, store_frame}
use m_quic.Server.Frames.{fill_buffer, max_backlog_delay_us}

-- Where the camera thread stands in its loop: before it looks at the backlog, after it looked,
-- before it discards the old frame, before it reads `active_idx`, while `camera_capture_jpeg` writes
-- buffer `idx`, and before the result is stored.
pub data CameraPc : Type 0 where
  checking : ℕ → CameraPc
  looked : ℕ → Bool → CameraPc
  dropping : CameraPc
  choosing : CameraPc
  writing : ℕ → CameraPc
  filled : ℕ → ℤ → CameraPc

-- Where the network thread stands: without a frame, or sending from buffer `idx`.
pub data NetworkPc : Type 0 where
  idle : NetworkPc
  sending : ℕ → ℕ → NetworkPc

pub record Threads : Type 0 where
  pub frames : FrameBuffers
  pub camera : CameraPc
  pub network : NetworkPc

-- `if (backlog_start_us == 0) backlog_start_us = now_us;`
abbrev pub backlog_since : ℕ → ℕ → ℕ
backlog_since start now = if start == 0 then now else start

-- `(now_us - backlog_start_us) > MAX_BACKLOG_DELAY_US`
abbrev pub is_overdue : ℕ → ℕ → Bool
is_overdue start now = ltb max_backlog_delay_us ((now + 2 ^ 64 - backlog_since start now) % 2 ^ 64)

-- One step of one thread. `drops` says whether the camera may discard a frame that waits too long.
pub data Step (drops : Bool) (s u : Threads) : Type 0 where
  look :
      (start : ℕ)
      → s.camera ≡ checking start
      → u ≡ record s { camera = looked start (backlog_full s.frames) }
      → Step drops s u
  wait :
      (start now : ℕ)
      → s.camera ≡ looked start true
      → is_overdue start now ≡ false
      → u ≡ record s { camera = checking (backlog_since start now) }
      → Step drops s u
  give_up :
      (start now : ℕ)
      → drops ≡ true
      → s.camera ≡ looked start true
      → is_overdue start now ≡ true
      → u ≡ record s { camera = dropping }
      → Step drops s u
  discard :
      s.camera ≡ dropping
      → u ≡ record s { camera = choosing; frames = discard_ready s.frames }
      → Step drops s u
  go_on :
      (start : ℕ)
      → s.camera ≡ looked start false
      → u ≡ record s { camera = choosing }
      → Step drops s u
  choose :
      s.camera ≡ choosing → u ≡ record s { camera = writing s.frames.active_idx } → Step drops s u
  fill :
      (idx : ℕ) (jpeg : List ℕ) (answer : ℤ)
      → s.camera ≡ writing idx
      → u ≡ record s { camera = filled idx answer; frames = fill_buffer idx jpeg s.frames }
      → Step drops s u
  store :
      (idx : ℕ) (answer : ℤ)
      → s.camera ≡ filled idx answer
      → u ≡ record s { camera = checking 0; frames = store_frame idx answer s.frames }
      → Step drops s u
  pop :
      (idx size : ℕ) (after : FrameBuffers)
      → s.network ≡ idle
      → pop_ready_frame s.frames ≡ (some (idx, size), after)
      → u ≡ record s { network = sending idx size; frames = after }
      → Step drops s u
  finish :
      (idx size : ℕ)
      → s.network ≡ sending idx size
      → u ≡ record s { network = idle }
      → Step drops s u

pub data Reach (drops : Bool) (s : Threads) : Threads → Type 0 where
  here : Reach drops s s
  next : {t u : Threads} → Reach drops s t → Step drops t u → Reach drops s u

-- The camera writes the buffer that the network thread reads.
abbrev pub IsTorn : Threads → Type 0
IsTorn s = (i : ℕ) × (size : ℕ) × (s.camera ≡ writing i) × (s.network ≡ sending i size)

-- Both threads at their start.
abbrev pub both_start : FrameBuffers → Threads
both_start f = record { frames = f; camera = checking 0; network = idle }
