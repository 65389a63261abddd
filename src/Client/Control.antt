-- ===== src/Client/Control.antt =====
-- The client's control messages and the callback of its sessions: `send_wt_control` and `loop_hook`
-- of client/wt_client.c, and client/wt_callback.c with its `client_cb`.
pub mod Laws
mod Runs
use m_quic.Prelude.{
  ℕ, ◌/◌, ◌%◌, ◌^◌, ◌==◌, ltb, if◌then◌else◌, Bool, true, false, not, ◌&&◌, ℤ, pos, minus_one,
  is_ok, bit_and,
}
use m_quic.Prelude.{List, [], ◌∷◌, ◌++◌, length, Option, none, some}
use m_quic.Varint.{byte, wt_varint_encode}
use m_quic.Quic.{Quic}
use m_quic.Client.Stream.{Host, App, wt_handle_stream_data}

abbrev pub ctrl_start : ℕ
ctrl_start = 0x01

abbrev pub ctrl_set_fps : ℕ
ctrl_set_fps = 0x10

abbrev pub ctrl_set_bitrate : ℕ
ctrl_set_bitrate = 0x11

abbrev pub default_fps : ℕ
default_fps = 30

abbrev pub default_bitrate : ℕ
default_bitrate = 8000000

-- `PICOQUIC_NO_ERROR_TERMINATE_PACKET_LOOP` is picoquic's `terminate`.
unfoldable pub loop_hook : ℤ → Bool → ℤ
loop_hook terminate running = if running then pos 0 else terminate

-- `picohttp_call_back_event_t`, as far as the callback tells it apart.
pub data HttpEvent : Type 0 where
  connect : HttpEvent
  post_data : HttpEvent
  post_fin : HttpEvent
  other : HttpEvent

module _ {W : Type 0} (q : Quic W) where
  -- What is sent behind the header: the code, and the payload if there is one.
  unfoldable pub send_code : ℕ → ℕ → List ℕ → W → ℤ × W
  send_code sid code payload w =
      let (r1, w1) = q.add_to_stream sid (code ∷ []) (length payload == 0) w in
      let (r2, w2) = q.add_to_stream sid payload true w1 in
      if not (is_ok r1)
      then (minus_one, w1)
      else if ltb 0 (length payload)
      then (if is_ok r2 then (pos 0, w2) else (minus_one, w2))
      else (pos 0, w1)

  unfoldable pub send_wt_control : ℕ → ℕ → List ℕ → W → ℤ × W
  send_wt_control session_id code payload w =
      let sid = q.next_local_stream_id true w in
      let hdr = wt_varint_encode 0x54 ++ wt_varint_encode session_id in
      let (r, w1) = q.add_to_stream sid hdr false w in
      if not (bit_and sid 0x3 == 0x2)
      then (minus_one, w)
      else if is_ok r
      then send_code sid code payload w1
      else (minus_one, w1)

  -- The three messages at the start of a session, the answers to which are not looked at.
  unfoldable pub start_session : ℕ → W → W
  start_session session_id w =
      let fps_be = byte default_fps 8 ∷ byte default_fps 0 ∷ [] in
      let br_be =
        byte default_bitrate 24
        ∷ byte default_bitrate 16
        ∷ byte default_bitrate 8
        ∷ byte default_bitrate 0
        ∷ [] in
      let w1 = (send_wt_control session_id ctrl_start [] w).1 in
      let w2 = (send_wt_control session_id ctrl_set_fps fps_be w1).1 in
      (send_wt_control session_id ctrl_set_bitrate br_be w2).1

  -- `client_cb`, for the id of the stream `h3s` or NULL, and `none` for `bytes` that are NULL. The
  -- result is `none` only where the handler of stream data runs out of its rounds.
  unfoldable pub client_cb :
      {D : Type 0}
      → Host D
      → HttpEvent
      → Option ℕ
      → Option (List ℕ)
      → App D
      → W
      → Option (App D × W)
  client_cb host connect none bytes app w = some (app, w)
  client_cb host connect (some sid) bytes app w =
      some (record app { session_ctrl_id = sid }, start_session sid w)
  client_cb host post_data (some sid) (some bytes) app w =
      if length bytes == 0
      then some (app, w)
      else (elim (wt_handle_stream_data host sid bytes app) [
        | none ↦ none
        | some (ret, app') ↦ some (app', w)
      ])
  client_cb host post_data none bytes app w = some (app, w)
  client_cb host post_data (some sid) none app w = some (app, w)
  client_cb host post_fin (some sid) (some bytes) app w =
      if length bytes == 0
      then some (app, w)
      else (elim (wt_handle_stream_data host sid bytes app) [
        | none ↦ none
        | some (ret, app') ↦ some (app', w)
      ])
  client_cb host post_fin none bytes app w = some (app, w)
  client_cb host post_fin (some sid) none app w = some (app, w)
  client_cb host other h3s bytes app w = some (app, w)
