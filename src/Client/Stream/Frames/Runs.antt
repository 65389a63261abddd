-- ===== src/Client/Stream/Frames/Runs.antt =====
-- Two frames on a stream at a concrete system: an image, and a time stamp with an image.
use m_quic.Prelude.{ℕ, ◌≡◌, refl, arith, true, false, pos}
use m_quic.Prelude.{List, [], ◌∷◌, some}
use m_quic.Varint.{wt_varint_decode}
use m_quic.Client.Stream.{Host, WtStream, App, wt_handle_stream_data}
use m_quic.Client.Stream.Frames.{bodies, wires, HasSaved}
use m_quic.Client.Stream.Frames.Saves.{frames_saved}

abbrev generous : Host (Unit {0})
generous = record { alloc = λ n d. (true, d); fopen = λ n d. (true, d) }

abbrev stream : WtStream
stream = record {
  stream_id = 7;
  cap = 4;
  buf = [];
  header_ok = true;
  cur_len = 0;
  pts_len = 0;
  use_len_framing = true;
}

abbrev app : App (Unit {0})
app = record {
  max_frames = 0;
  saved = 3;
  session_ctrl_id = 4;
  streams = stream ∷ [];
  running = true;
  files = [];
  disk = tt;
}

abbrev frames : List (List ℕ)
frames =
    (0xFF ∷ 0xD8 ∷ 1 ∷ 2 ∷ 3 ∷ 4 ∷ 5 ∷ 6 ∷ 0xFF ∷ 0xD9 ∷ [])
    ∷ (0x40 ∷ 0x21 ∷ 0xFF ∷ 0xD8 ∷ 1 ∷ 2 ∷ 3 ∷ 4 ∷ 0xFF ∷ 0xD9 ∷ [])
    ∷ []

frames_saved_example :
    (app' : App (Unit {0})) × (wt_handle_stream_data generous 7 (wires frames) app
      ≡ some (pos 0, app'))
    × HasSaved generous frames app app'
frames_saved_example =
    frames_saved generous 7 frames stream app (record { memory = λ n d. refl; opens = λ n d. refl })
      ((omega arith, omega arith), ((omega arith, omega arith), tt)) refl
      (record { opened = refl; no_length = refl }) refl

bodies_test :
    bodies 3 frames
    ≡ (3, 0xFF ∷ 0xD9 ∷ []) ∷ (4, 0xFF ∷ 0xD8 ∷ 1 ∷ 2 ∷ 3 ∷ 4 ∷ 0xFF ∷ 0xD9 ∷ []) ∷ []
unfolding wt_varint_decode
bodies_test = refl

-- The front of an image was collected, and the next bytes are 16 and others.
abbrev collecting : WtStream
collecting = record stream { use_len_framing = false; buf = 0xFF ∷ 0xD8 ∷ 1 ∷ [] }

abbrev next_bytes : List ℕ
next_bytes = 1 ∷ 2 ∷ 3 ∷ 4 ∷ 5 ∷ 6 ∷ 7 ∷ 0xFF ∷ 0xD9 ∷ []
