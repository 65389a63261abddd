-- ===== src/Server/Frames/Laws.antt =====
-- What the operations of the double buffer promise, one thread at a time.
use m_quic.Prelude.{ℕ, ◌≤◌, ◌<◌, ◌≢◌, arith}
use m_quic.Prelude.{ℤ, pos, negsuc}
use m_quic.Server.Frames.{FrameBuffers, pop_ready_frame}
use m_quic.Server.Frames.{backlog_full, discard_ready, camera_check, store_frame}

-- The two indices are 0 and 1, in some order; a frame that is there has a size within the buffer.
pub record IsValid (f : FrameBuffers) : Type 0 where
  pub active_in : f.active_idx < 2
  pub ready_in : f.ready_idx < 2
  pub apart : f.active_idx ≢ f.ready_idx
  pub size_zero : f.ready_size.at_zero ≤ f.frame_buffer_size
  pub size_one : f.ready_size.at_one ≤ f.frame_buffer_size

pub pop_ready_frame-IsValid : {f : FrameBuffers} → IsValid f → IsValid (pop_ready_frame f).1
unfolding pop_ready_frame
pop_ready_frame-IsValid v = ground arith

pub store_frame-IsValid :
    {f : FrameBuffers} (jpeg_size : ℤ) → IsValid f → IsValid (store_frame f.active_idx jpeg_size f)
unfolding store_frame
store_frame-IsValid (pos n) v = ground arith
store_frame-IsValid (negsuc n) v = v

pub camera_check-IsValid :
    {f : FrameBuffers} (start now : ℕ) → IsValid f → IsValid (camera_check start now f).1
unfolding camera_check discard_ready backlog_full
camera_check-IsValid start now v = ground arith
