-- ===== src/Server/Handlers/Laws.antt =====
-- What the camera's thread, the callbacks and the server's start and end keep and do.
use m_quic.Prelude.{
  ℕ, ◌+◌, ◌≡◌, ◌≢◌, refl, arith, ◌==◌, if◌then◌else◌, Bool, true, false, ◌⊎◌, inl, inr, ℤ, pos,
  minus_one, is_ok,
}
use m_quic.Prelude.{List, [], ◌∷◌, Bool-cases}
use m_quic.Quic.{Quic}
use m_quic.Server.{Server, keepalive_interval_us}
use m_quic.Server.Frames.{FrameBuffers, fill_buffer}
use m_quic.Server.Frames.Laws.{IsValid, store_frame-IsValid}
use m_quic.WebTransport.{h3_send_status_200_headers}
use m_quic.Server.Handlers.{
  Capture, CreateThread, capture_turn, start_threads, camera_path_callback,
}
use m_quic.Server.Handlers.{
  Resource, log_file, buffer, fb_lock, camera_handle, quic, Action, acquire, release, setup,
  join_threads, run_server,
}

fill_buffer-IsValid :
    {f : FrameBuffers} (idx : ℕ) (jpeg : List ℕ) → IsValid f → IsValid (fill_buffer idx jpeg f)
unfolding fill_buffer
fill_buffer-IsValid idx jpeg v = record {
  active_in = v.active_in;
  ready_in = v.ready_in;
  apart = v.apart;
  size_zero = v.size_zero;
  size_one = v.size_one;
}

module _ {W : Type 0} (q : Quic W) (camera : Capture W) where
  pub capture_turn-IsValid :
      (s : Server W) → IsValid s.ctx.frames → IsValid (capture_turn q camera s).ctx.frames
  unfolding capture_turn fill_buffer
  capture_turn-IsValid s v =
      let (jpeg_size, bytes, w) = camera s.ctx.frames.frame_buffer_size s.world in
      store_frame-IsValid jpeg_size (fill_buffer-IsValid s.ctx.frames.active_idx bytes v)

module _ {W : Type 0} (q : Quic W) (create : CreateThread W) where
  start_threads_cases :
      (s : Server W)
      → let (ret, s') = start_threads q create s in
        ((ret ≡ pos 0)
          × (s'.ctx.is_sending ≡ true)
          × (s'.ctx.has_cnx ≡ s.ctx.has_cnx)
          × (s'.ctx.control_stream_id ≡ s.ctx.control_stream_id)
          × (s'.ctx.frame_count ≡ (if s.ctx.is_sending then s.ctx.frame_count else 0)))
        ⊎ ((ret ≡ minus_one) × (s'.ctx.is_sending ≡ s.ctx.is_sending))
  unfolding start_threads
  start_threads_cases s = ground arith

  -- A CONNECT that is answered with 0 leaves the session streaming: `is_sending` is set, and the
  -- connection and the control stream are recorded, and without a running session the frame count
  -- starts at 0. One that is answered with -1 leaves a session that was not running stopped. Any
  -- other event changes nothing.
  path_callback_cases :
      (is_connect : Bool) (sid : ℕ) (s : Server W)
      → let (ret, s') = camera_path_callback q create is_connect sid s in
        (((is_connect ≡ true)
            × (ret ≡ pos 0)
            × (s'.ctx.is_sending ≡ true)
            × (s'.ctx.has_cnx ≡ true)
            × (s'.ctx.control_stream_id ≡ sid)
            × (s'.ctx.frame_count ≡ (if s.ctx.is_sending then s.ctx.frame_count else 0)))
          ⊎ ((is_connect ≡ true) × (ret ≡ minus_one) × (s'.ctx.is_sending ≡ s.ctx.is_sending)))
        ⊎ ((is_connect ≡ false) × (ret ≡ pos 0) × (s' ≡ s))
  unfolding camera_path_callback
  path_callback_cases false sid s = inr (refl, refl, refl)
  path_callback_cases true sid s =
      let w1 = q.set_callback (q.enable_keep_alive keepalive_interval_us s.world) in
      let (ret, w2) = h3_send_status_200_headers q sid w1 in
      let s1 = record s {
        ctx = record s.ctx { has_cnx = true; control_stream_id = sid };
        world = w2;
      } in
      elim (Bool-cases (is_ok ret)) [
        | inl ok ↦ rw ok (elim (start_threads_cases s1) [
          | inl (r, a, b, c, d) ↦ inl (inl (refl, r, a, b, c, d))
          | inr (r, a) ↦ inl (inr (refl, r, a))
        ])
        | inr bad ↦ rw bad (inl (inr (refl, refl, refl)))
      ]

abbrev code : Resource → ℕ
code log_file = 0
code fb_lock = 1
code camera_handle = 2
code quic = 3
code (buffer i) = 4 + i

abbrev step_count : Resource → Action → ℕ × ℕ
step_count r (acquire x) = (if code r == code x then 1 else 0, 0)
step_count r (release x) = (0, if code r == code x then 1 else 0)
step_count r join_threads = (0, 0)
step_count r (setup x) = (0, 0)

-- How often a resource is acquired, and how often it is released.
unfoldable pub balance : Resource → List Action → ℕ × ℕ
balance r [] = (0, 0)
balance r (a ∷ rest) =
    ((step_count r a).0 + (balance r rest).0, (step_count r a).1 + (balance r rest).1)

code-log_file : (r : Resource) → r ≢ log_file → (code r == 0) ≡ false
code-log_file log_file h = absurd (h refl)
code-log_file fb_lock h = refl
code-log_file camera_handle h = refl
code-log_file quic h = refl
code-log_file (buffer i) h = ground arith

-- Every way out of the server's run releases each buffer, the lock, the camera and the QUIC context
-- as often as it acquired it, whatever fails on the way.
pub run_server-balance :
    (m0 m1 has_camera has_quic is_sending : Bool) (ret : ℤ) (r : Resource)
    → r ≢ log_file
    → (balance r (run_server m0 m1 has_camera has_quic ret is_sending).1).0
      ≡ (balance r (run_server m0 m1 has_camera has_quic ret is_sending).1).1
unfolding run_server balance
run_server-balance m0 m1 has_camera has_quic is_sending ret r h = ground (arith, code-log_file r h)
