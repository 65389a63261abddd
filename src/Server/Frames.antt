-- ===== src/Server/Frames.antt =====
-- The double buffer of src/quic_server.c and the camera thread's turn on it. `Interleave` runs the
-- two threads against each other.
pub mod Laws
pub mod Interleave
use m_quic.Prelude.{ℕ, ◌+◌, ◌-◌, ◌%◌, ◌^◌, ltb, leb, ◌==◌, if◌then◌else◌, Bool, true, false, ◌&&◌}
use m_quic.Prelude.{List, [], ◌∷◌, Option, none, some, ℤ, pos, negsuc}

-- An array of two elements.
pub record Two {ℓ} (A : Type ℓ) : Type ℓ where
  pub at_zero : A
  pub at_one : A

abbrev pub get_two {ℓ} : {A : Type ℓ} → Two A → ℕ → A
get_two t i = if i == 0 then t.at_zero else t.at_one

abbrev pub set_two {ℓ} : {A : Type ℓ} → Two A → ℕ → A → Two A
set_two t i a = if i == 0 then record t { at_zero = a } else record t { at_one = a }

-- The buffers of `streamer_context_t`, each with its contents.
pub record FrameBuffers : Type 0 where
  pub frame_buffer : Two (List ℕ)
  pub frame_buffer_size : ℕ
  pub ready_size : Two ℕ
  pub has_frame : Two Bool
  pub active_idx : ℕ
  pub ready_idx : ℕ

abbrev pub max_backlog_delay_us : ℕ
max_backlog_delay_us = 200000

-- `pop_ready_frame`: `none` for no frame, else `*out_idx` and `*out_sz`.
unfoldable pub pop_ready_frame : FrameBuffers → Option (ℕ × ℕ) × FrameBuffers
pop_ready_frame f =
    let idx = f.ready_idx in
    if get_two f.has_frame idx && ltb 0 (get_two f.ready_size idx)
    then (
      some (idx, get_two f.ready_size idx),
      record f {
        has_frame = set_two f.has_frame idx false;
        ready_size = set_two f.ready_size idx 0;
      },
    )
    else (none, f)

-- The decision at the head of the camera's loop: to wait another millisecond, or to capture. Both
-- carry `backlog_start_us`.
pub data Turn : Type 0 where
  wait : ℕ → Turn
  capture : ℕ → Turn

unfoldable pub backlog_full : FrameBuffers → Bool
backlog_full f = get_two f.has_frame f.ready_idx

unfoldable pub discard_ready : FrameBuffers → FrameBuffers
discard_ready f = record f {
  has_frame = set_two f.has_frame f.ready_idx false;
  ready_size = set_two f.ready_size f.ready_idx 0;
}

-- `now_us` is what the clock shows if it is read.
unfoldable pub camera_check : ℕ → ℕ → FrameBuffers → Turn × FrameBuffers
camera_check backlog_start_us now_us f =
    let start : ℕ = if backlog_start_us == 0 then now_us else backlog_start_us in
    if backlog_full f
    then (if ltb max_backlog_delay_us ((now_us + 2 ^ 64 - start) % 2 ^ 64)
        then (capture 0, discard_ready f)
        else (wait start, f))
    else (capture 0, f)

-- What `camera_capture_jpeg` answers for the bytes of an encoded frame, or for its failure code
-- before that; in a buffer it leaves the bytes at the front.
unfoldable pub write_front : List ℕ → List ℕ → List ℕ
write_front [] old = old
write_front (b ∷ bs) [] = []
write_front (b ∷ bs) (o ∷ old) = b ∷ write_front bs old

-- The camera's answer: the size of the encoded frame, or a negative code.
unfoldable pub store_frame : ℕ → ℤ → FrameBuffers → FrameBuffers
store_frame idx (negsuc e) f = f
store_frame idx (pos jpeg_size) f =
    if ltb 0 jpeg_size && leb jpeg_size f.frame_buffer_size
    then record f {
      ready_size = set_two f.ready_size idx jpeg_size;
      has_frame = set_two f.has_frame idx true;
      active_idx = f.ready_idx;
      ready_idx = f.active_idx;
    }
    else f

-- The bytes that the camera writes into buffer `idx`.
unfoldable pub fill_buffer : ℕ → List ℕ → FrameBuffers → FrameBuffers
fill_buffer idx jpeg f = record f {
  frame_buffer = set_two f.frame_buffer idx (write_front jpeg (get_two f.frame_buffer idx));
}
