-- ===== src/Client/Receive.antt =====
-- The client program's callback, client/client_main.c: `client_cb`, which puts the frames of the
-- stream data together and saves them. The buffer `frame_buffer[0 .. received_size)` is a list; a
-- call's bytes `p .. p_max` that are still to be read are a list. `decode` is
-- `picoquic_varint_decode`, with `none` for 0, and `Host` is the system's memory and files.
pub mod Laws
mod Runs
use m_quic.Prelude.{
  ℕ, zero, suc, ◌+◌, ◌-◌, ◌%◌, ◌^◌, ltb, leb, ◌==◌, if◌then◌else◌, Bool, true, false, not, ◌&&◌,
}
use m_quic.Prelude.{List, [], ◌∷◌, ◌++◌, length, take, drop, Option, none, some}
use m_quic.Client.Stream.{Host, sub64}

-- `app_ctx_t` with `g_running`, the files that were written, whether the connection was closed, and
-- the state of the system. `has_out_dir` is whether a directory is named, `has_buffer` whether
-- `frame_buffer` is set.
pub record Receiver (D : Type 0) : Type 0 where
  pub max_frames : ℕ
  pub frame_count : ℕ
  pub has_out_dir : Bool
  pub has_buffer : Bool
  pub buffer_size : ℕ
  pub frame_size : ℕ
  pub received : List ℕ
  pub running : Bool
  pub closed : Bool
  pub files : List (ℕ × List ℕ)
  pub disk : D

-- The events of picoquic that the callback tells apart.
pub data Event : Type 0 where
  stream_data : Event
  stream_fin : Event
  close : Event
  application_close : Event
  other : Event

-- How a round of the loop ends: with a break, or with the bytes left.
pub data Sweep (D : Type 0) : Type 0 where
  stop : Receiver D → Sweep D
  go : List ℕ → Receiver D → Sweep D

module _ {D : Type 0} (decode : List ℕ → Option (ℕ × ℕ)) (host : Host D) where
  -- A new frame of `size` bytes: the buffer is replaced where it is smaller.
  unfoldable pub begin_frame : ℕ → Receiver D → Receiver D
  begin_frame size app =
      let (ok, d) = host.alloc size app.disk in
      let cleared = record app { frame_size = size; received = [] } in
      if ltb app.buffer_size size
      then record cleared { has_buffer = ok; buffer_size = if ok then size else 0; disk = d }
      else cleared

  -- A whole frame is counted and saved, and the connection closed when it was the last one.
  unfoldable pub end_frame : Receiver D → Receiver D
  end_frame app =
      let n = app.frame_count + 1 in
      let (opened, d) = host.fopen n app.disk in
      let saved : Receiver D =
        if not app.has_out_dir
        then app
        else if opened
        then record app { files = app.files ++ ((n, app.received) ∷ []); disk = d }
        else record app { disk = d } in
      let next = record saved { frame_count = n; frame_size = 0; received = [] } in
      if ltb 0 app.max_frames && leb app.max_frames n
      then record next { running = false; closed = true }
      else next

  -- Bytes of the payload.
  unfoldable pub copy_payload : List ℕ → Receiver D → Sweep D
  copy_payload rest app =
      let got = length app.received in
      let n : ℕ =
        if ltb app.frame_size (got + length rest) then sub64 app.frame_size got else length rest in
      let app1 = record app { received = app.received ++ take n rest } in
      if ltb 0 app.frame_size && app.has_buffer
      then (if length app1.received == app.frame_size
          then go (drop n rest) (end_frame app1)
          else go (drop n rest) app1)
      else go rest app

  unfoldable pub receive_round : List ℕ → Receiver D → Sweep D
  receive_round rest app =
      if app.frame_size == 0
      then (elim (decode rest) [
        | none ↦ stop app
        | some (size, n) ↦ copy_payload (drop n rest) (begin_frame size app)
      ])
      else copy_payload rest app

  -- The loop, with a number of rounds.
  unfoldable pub receive_loop : ℕ → List ℕ → Receiver D → Option (Receiver D)
  receive_loop zero rest app = none
  receive_loop (suc n) rest app =
      if length rest == 0 then some app else (elim (receive_round rest app) [
        | stop app1 ↦ some app1
        | go rest1 app1 ↦ receive_loop n rest1 app1
      ])

  -- `client_cb`
  unfoldable pub receive_event : ℕ → Event → List ℕ → Receiver D → Option (Receiver D)
  receive_event n stream_data bytes app = receive_loop n bytes app
  receive_event n stream_fin bytes app = some app
  receive_event n close bytes app = some (record app { has_buffer = false; running = false })
  receive_event n application_close bytes app =
      some (record app { has_buffer = false; running = false })
  receive_event n other bytes app = some app
