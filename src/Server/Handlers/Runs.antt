-- ===== src/Server/Handlers/Runs.antt =====
-- The theorems on the handlers at concrete inputs.
use m_quic.Prelude.{◌≡◌, arith, true, false, pos, [], ◌∷◌, replicate, none}
use m_quic.Quic.Bench.{Bench}
use m_quic.Server.{Server, unbound}
use m_quic.Server.Frames.{FrameBuffers}
use m_quic.Server.Handlers.{run_server, quic}
use m_quic.Server.Handlers.Laws.{balance, run_server-balance}

abbrev frames : FrameBuffers
frames = record {
  frame_buffer = record { at_zero = 0 ∷ 0 ∷ 0 ∷ []; at_one = 0 ∷ 0 ∷ 0 ∷ [] };
  frame_buffer_size = 3;
  ready_size = record { at_zero = 0; at_one = 0 };
  has_frame = record { at_zero = false; at_one = false };
  active_idx = 0;
  ready_idx = 1;
}

abbrev stopped : Server Bench
stopped = record {
  ctx = record {
    has_camera = true;
    frames = frames;
    is_sending = false;
    frame_count = 5;
    max_frames = 100;
    has_cnx = false;
    control_stream_id = 0;
    algo = none;
    bind = replicate 8 unbound;
  };
  world = record {
    time = 0;
    room = 3;
    state = 13;
    array = [];
    next_id = 3;
    contexts = 0;
    log = [];
  };
}

run_server-balance_example :
    (balance quic (run_server true true true true (pos 0) true).1).0
    ≡ (balance quic (run_server true true true true (pos 0) true).1).1
run_server-balance_example =
    run_server-balance true true true true true (pos 0) quic (λ e. absurd (ground (arith, e)))
