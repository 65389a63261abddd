-- ===== src/Client/Stream/Runs.antt =====
-- The theorems on stream data at a small concrete system.
use m_quic.Prelude.{◌<◌, ◌≡◌, refl, arith, true, false, pos, minus_one}
use m_quic.Prelude.{[], ◌∷◌, some}
use m_quic.Client.Stream.{Host, WtStream, App, stream_loop, payload_need}
use m_quic.Client.Stream.Rank.{IsFit}
use m_quic.Client.Stream.Ends.{Answered, stream_loop_ends}
use m_quic.Client.Stream.Cuts.{holding, payload_cut}
use m_quic.Client.Stream.Refused.{awaiting, refused_growth}
use m_quic.Varint.Encode.{varint}
use m_quic.Varint.{wt_varint_decode}
use m_quic.Prelude.{◌*◌, ◌+◌, ◌++◌, replicate, length, List, ℕ}

-- A system that opens every file and gives all memory, or none.
abbrev generous : Host (Unit {0})
generous = record { alloc = λ n d. (true, d); fopen = λ n d. (true, d) }

abbrev mean : Host (Unit {0})
mean = record { alloc = λ n d. (false, d); fopen = λ n d. (true, d) }

abbrev app : App (Unit {0})
app = record {
  max_frames = 0;
  saved = 0;
  session_ctrl_id = 4;
  streams = [];
  running = true;
  files = [];
  disk = tt;
}

abbrev stream : WtStream
stream = record {
  stream_id = 7;
  cap = 16;
  buf = [];
  header_ok = false;
  cur_len = 0;
  pts_len = 0;
  use_len_framing = false;
}

stream-IsFit : IsFit stream
stream-IsFit = record { within = omega arith; room = omega arith; small = omega arith }

stream_loop_ends_example : Answered (stream_loop generous 15 (0x40 ∷ 0x54 ∷ 4 ∷ 2 ∷ []) stream app)
stream_loop_ends_example =
    stream_loop_ends generous (0x40 ∷ 0x54 ∷ 4 ∷ 2 ∷ []) stream app stream-IsFit

-- The stream takes a length of 30 bytes; its buffer holds 16, and 20 bytes come next.
abbrev ready : WtStream
ready = record stream { header_ok = true }

abbrev nine_bytes : List ℕ
nine_bytes = 1 ∷ 2 ∷ 3 ∷ 4 ∷ 5 ∷ 6 ∷ 7 ∷ 8 ∷ 9 ∷ []

abbrev twenty_bytes : List ℕ
twenty_bytes = replicate 20 5

twenty_fewer : 20 < payload_need (awaiting mean 30 nine_bytes ready)
unfolding payload_need wt_varint_decode
twenty_fewer = omega arith

refused_growth_example :
    (app' : App (Unit {0})) × (app'.files ≡ [])
    × (stream_loop mean
          (3 * length (varint 30 ++ nine_bytes) + 3)
          (varint 30 ++ nine_bytes)
          ready
          app
        ≡ some (minus_one, awaiting mean 30 nine_bytes ready, app'))
    × (st' : WtStream) × (stream_loop mean 63 twenty_bytes (awaiting mean 30 nine_bytes ready) app'
        ≡ some (pos 0, st', app'))
    × (st'.buf ≡ twenty_bytes)
    × (st'.cap ≡ 16)
    × (st'.cap < length st'.buf)
refused_growth_example =
    refused_growth mean 30 nine_bytes twenty_bytes ready app refl refl refl (omega arith)
      (omega arith) (omega arith) refl (omega arith) twenty_fewer

-- Two of the six bytes of a frame have come.
abbrev within_frame : WtStream
within_frame = record stream {
  buf = 1 ∷ 2 ∷ [];
  header_ok = true;
  cur_len = 6;
  use_len_framing = true;
}

within_frame-IsFit : IsFit within_frame
unfolding payload_need
within_frame-IsFit = record { within = omega arith; room = omega arith; small = omega arith }

four_needed : 4 < payload_need within_frame
unfolding payload_need
four_needed = omega arith

payload_cut_example :
    (stream_loop generous 9 (3 ∷ 4 ∷ []) within_frame app
      ≡ some (pos 0, holding (3 ∷ 4 ∷ []) within_frame, app))
    × (stream_loop generous 12 (5 ∷ 6 ∷ 2 ∷ []) (holding (3 ∷ 4 ∷ []) within_frame) app
        ≡ stream_loop generous 18 (3 ∷ 4 ∷ 5 ∷ 6 ∷ 2 ∷ []) within_frame app)
payload_cut_example =
    payload_cut generous (3 ∷ 4 ∷ []) (5 ∷ 6 ∷ 2 ∷ []) within_frame app within_frame-IsFit refl
      four_needed refl (omega arith) (omega arith)
