-- ===== src/Client/Stream.antt =====
-- The frames of the WebTransport streams, client/wt_client.c: the state of each stream, saving a
-- frame, and `wt_handle_stream_data`. A stream's buffer `buf[0 .. got)` is a list next to its
-- capacity, and the bytes `bytes[off .. length)` that are still to be read are a list. What the
-- operating system answers comes from a `Host D` over its state `D`.
pub mod Rank
pub mod Lower
pub mod Ends
pub mod Refused
pub mod Frames
pub mod Loop
pub mod Cuts
mod Runs
use m_quic.Prelude.{ℕ, zero, suc, ◌+◌, ◌-◌, ◌*◌, ◌/◌, ◌%◌, ◌^◌, ltb, leb, ◌==◌, if◌then◌else◌, min}
use m_quic.Prelude.{Bool, true, false, not, ◌&&◌, ◌||◌, bit_and, ℤ, pos, minus_one}
use m_quic.Prelude.{List, [], ◌∷◌, ◌++◌, length, take, drop, get_or, Option, none, some}
use m_quic.Varint.{wt_varint_decode}
use m_quic.Client.Jpeg.{extract_jpegs}

-- `malloc`, `calloc` and `realloc` for a number of bytes, and `fopen` for the frame of a number.
pub record Host (D : Type 0) : Type 0 where
  pub alloc : ℕ → D → Bool × D
  pub fopen : ℕ → D → Bool × D

-- `wt_stream_t`
pub record WtStream : Type 0 where
  pub stream_id : ℕ
  pub cap : ℕ
  pub buf : List ℕ
  pub header_ok : Bool
  pub cur_len : ℕ
  pub pts_len : ℕ
  pub use_len_framing : Bool

-- `app_ctx_t` with `g_running`, the files that were written, and the state of the system.
pub record App (D : Type 0) : Type 0 where
  pub max_frames : ℕ
  pub saved : ℕ
  pub session_ctrl_id : ℕ
  pub streams : List WtStream
  pub running : Bool
  pub files : List (ℕ × List ℕ)
  pub disk : D

abbrev pub max_frame_len : ℕ
max_frame_len = 32 * 1024 * 1024

abbrev pub initial_cap : ℕ
initial_cap = 2 ^ 20

unfoldable pub payload_need : WtStream → ℕ
payload_need st = if ltb st.pts_len st.cur_len then st.cur_len - st.pts_len else 0

-- `a - b` on 64 bits
abbrev pub sub64 : ℕ → ℕ → ℕ
sub64 a b = (a + 2 ^ 64 - b) % 2 ^ 64

-- How one round of the handler's loop ends: with the handler's answer, or with the bytes left.
pub data Round (D : Type 0) : Type 0 where
  done : ℤ → WtStream → App D → Round D
  again : List ℕ → WtStream → App D → Round D

abbrev pub find_stream : List WtStream → ℕ → Option WtStream
find_stream [] sid = none
find_stream (st ∷ sts) sid =
    let later = find_stream sts sid in if st.stream_id == sid then some st else later

-- What the handler did to the stream it was given, in the list.
abbrev pub put_stream : WtStream → List WtStream → List WtStream
put_stream st [] = []
put_stream st (x ∷ xs) =
    let later = put_stream st xs in if x.stream_id == st.stream_id then st ∷ xs else x ∷ later

module _ {D : Type 0} (host : Host D) where
  unfoldable pub save_frame : List ℕ → App D → App D
  save_frame frame app =
      let (opened, disk) = host.fopen app.saved app.disk in
      if opened
      then record app {
        saved = app.saved + 1;
        files = app.files ++ ((app.saved, frame) ∷ []);
        disk = disk;
      }
      else record app { disk = disk }

  unfoldable pub save_frames : List (List ℕ) → App D → App D
  save_frames [] app = app
  save_frames (f ∷ fs) app = save_frames fs (save_frame f app)

  abbrev pub is_full : App D → Bool
  is_full app = ltb 0 app.max_frames && leb app.max_frames app.saved

  abbrev pub stop_running : App D → App D
  stop_running app = record app { running = false }

  unfoldable pub get_stream : ℕ → App D → Option WtStream × App D
  get_stream sid app =
      let (got_state, d1) = host.alloc 64 app.disk in
      let (got_buf, d2) = host.alloc initial_cap d1 in
      let st : WtStream = record {
        stream_id = sid;
        cap = initial_cap;
        buf = [];
        header_ok = false;
        cur_len = 0;
        pts_len = 0;
        use_len_framing = false;
      } in
      let made : Option WtStream × App D =
        if not got_state
        then (none, record app { disk = d1 })
        else if not got_buf
        then (none, record app { disk = d2 })
        else (some st, record app { disk = d2; streams = st ∷ app.streams }) in
      elim (find_stream app.streams sid) [ some found ↦ (some found, app) | none ↦ made ]

  unfoldable pub free_streams : App D → App D
  free_streams app = record app { streams = [] }

  -- The buffer grows to `need` bytes where it is smaller; `false` without memory.
  unfoldable pub grow : ℕ → WtStream → App D → Bool × WtStream × App D
  grow need st app =
      let (ok, d) = host.alloc need app.disk in
      if ltb st.cap need
      then (if ok
          then (true, record st { cap = need }, record app { disk = d })
          else (false, st, record app { disk = d }))
      else (true, st, app)

  -- Part A: the header of a WebTransport stream, once its two numbers are read.
  unfoldable pub check_header : ℕ → ℕ → List ℕ → WtStream → App D → Round D
  check_header v sidv rest st app =
      if not (v == 0x54)
      then done minus_one st app
      else if not (sidv == app.session_ctrl_id)
      then done minus_one st app
      else again rest
          (record st {
            header_ok = true;
            cur_len = 0;
            buf = [];
            pts_len = 0;
            use_len_framing = false;
          })
          app

  unfoldable pub header_round : List ℕ → WtStream → App D → Round D
  header_round rest st app = elim (wt_varint_decode rest) [
    | none ↦ done (pos 0) st app
    | some (v, c_type) ↦ elim (wt_varint_decode (drop c_type rest)) [
      | none ↦ done (pos 0) st app
      | some (sidv, c_sid) ↦ check_header v sidv (drop (c_type + c_sid) rest) st app
    ]
  ]

  -- Part D, which part B repeats: everything is collected and searched for images.
  unfoldable pub collect : List ℕ → WtStream → App D → Round D
  collect chunk st app =
      let (ok, st1, app1) = grow (length st.buf + length chunk) st app in
      let (frames, left) = extract_jpegs (st1.buf ++ chunk) in
      let app2 = save_frames frames app1 in
      let app3 = if is_full app2 then stop_running app2 else app2 in
      if ok then done (pos 0) (record st1 { buf = left }) app3 else done minus_one st1 app1

  -- Part C: the payload of a frame.
  unfoldable pub payload_round : List ℕ → WtStream → App D → Round D
  payload_round rest st app =
      let need = payload_need st in
      let left = sub64 need (length st.buf) in
      let n : ℕ = if ltb left (length rest) then left else length rest in
      let st1 = record st { buf = st.buf ++ take n rest } in
      let app1 = save_frame st1.buf app in
      if need == 0
      then again rest (record st { use_len_framing = false }) app
      else if length st1.buf == need
      then (if is_full app1
          then done (pos 0) st1 (stop_running app1)
          else again (drop n rest) (record st1 { cur_len = 0; buf = []; pts_len = 0 }) app1)
      else again (drop n rest) st1 app

  -- `fl` was read as the length: the frame starts, behind an optional time stamp.
  unfoldable pub start_frame : ℕ → List ℕ → WtStream → App D → Round D
  start_frame fl rest st app =
      let c2 : ℕ = elim (wt_varint_decode rest) [ none ↦ 0 | some (dummy, c) ↦ c ] in
      let st1 = record st { cur_len = fl; buf = []; pts_len = c2; use_len_framing = true } in
      let (ok, st2, app2) = grow (payload_need st1) st1 app in
      if ok then payload_round (drop c2 rest) st2 app2 else done minus_one st2 app2

  -- `fl` is no length of a frame: what is there is searched for images, the number included.
  unfoldable pub take_length : ℕ → List ℕ → List ℕ → WtStream → App D → Round D
  take_length fl rest behind st app =
      if fl == 0 || ltb max_frame_len fl then collect rest st app else start_frame fl behind st app

  -- Part B: the length of a frame.
  unfoldable pub detect_round : List ℕ → WtStream → App D → Round D
  detect_round rest st app =
      let need_len = 2 ^ (bit_and (get_or rest 0 0) 0xC0 / 2 ^ 6) in
      if ltb (length rest) need_len then done (pos 0) st app else (elim (wt_varint_decode rest) [
        | none ↦ done (pos 0) st app
        | some (fl, c) ↦ take_length fl rest (drop c rest) st app
      ])

  unfoldable pub stream_round : List ℕ → WtStream → App D → Round D
  stream_round rest st app =
      if not st.header_ok
      then header_round rest st app
      else if not st.use_len_framing && st.cur_len == 0
      then detect_round rest st app
      else if st.use_len_framing
      then payload_round rest st app
      else collect rest st app

  -- The loop, with a number of rounds.
  unfoldable pub stream_loop : ℕ → List ℕ → WtStream → App D → Option (ℤ × WtStream × App D)
  stream_loop zero rest st app = none
  stream_loop (suc n) rest st app =
      if length rest == 0 then some (pos 0, st, app) else (elim (stream_round rest st app) [
        | done ret st1 app1 ↦ some (ret, st1, app1)
        | again rest1 st1 app1 ↦ stream_loop n rest1 st1 app1
      ])

  -- `wt_handle_stream_data`, with enough rounds for its input.
  unfoldable pub wt_handle_stream_data : ℕ → List ℕ → App D → Option (ℤ × App D)
  wt_handle_stream_data sid bytes app =
      let (found, app1) = get_stream sid app in
      elim found [
        | none ↦ some (minus_one, app1)
        | some st ↦ elim (stream_loop (3 * length bytes + 3) bytes st app1) [
          | none ↦ none
          | some (ret, st2, app2) ↦
              some (ret, record app2 { streams = put_stream st2 app2.streams })
        ]
      ]
