-- ===== src/Delivery/Runs.antt =====
-- A frame of three bytes on its way from the server to the client.
use m_quic.Prelude.{
  inl, ℕ, ◌≡◌, refl, arith, true, false, List, [], ◌∷◌, ◌++◌, replicate, none, some,
}
use m_quic.Varint.{wt_varint_decode, quic_varint_encode}
use m_quic.Varint.RoundTrip.{wt_varint_decode-varint}
use m_quic.PathAlgo.{path_algo_on_sent}
use m_quic.Quic.Laws.{Write}
use m_quic.Quic.Bench.{Bench, bench_quic, bench_Queues, bench_Permits}
use m_quic.Server.{Server, unbound}
use m_quic.Server.Pacing.{pacing_loop, wait_for_pacing, send_with_pacing}
use m_quic.Server.Network.{send_frame, payload_loop}
use m_quic.Server.Network.Payload.{Quiet, bytes_of}
use m_quic.Client.Stream.{Host}
use m_quic.Client.Receive.{Receiver}
use m_quic.Client.Receive.Laws.{Decodes, wires}
use m_quic.Client.Receive.Laws.Saves.{Took}
use m_quic.Server.Frames.{fill_buffer, write_front}
use m_quic.Client.Receive.Laws.Chunks.{Cuts, ended, up_to, into, receive_all}
use m_quic.Varint.Encode.{varint}
use m_quic.Delivery.{frame_arrives}

abbrev server : ℕ → List Write → Server Bench
server room log = record {
  ctx = record {
    has_camera = true;
    frames = record {
      frame_buffer = record { at_zero = 0xFF ∷ 0xD8 ∷ 0xFF ∷ []; at_one = [] };
      frame_buffer_size = 3;
      ready_size = record { at_zero = 0; at_one = 0 };
      has_frame = record { at_zero = false; at_one = false };
      active_idx = 1;
      ready_idx = 0;
    };
    is_sending = true;
    frame_count = 0;
    max_frames = 100;
    has_cnx = true;
    control_stream_id = 4;
    algo = none;
    bind = replicate 8 unbound;
  };
  world = record {
    time = 0;
    room = room;
    state = 13;
    array = [];
    next_id = 3;
    contexts = 0;
    log = log;
  };
}

abbrev sent : Server Bench
sent = record (server 7 []) {
  world = record {
    time = 0;
    room = 7;
    state = 13;
    array = [];
    next_id = 11;
    contexts = 0;
    log =
        record { sid = 7; bytes = 3 ∷ []; fin = false }
        ∷ record { sid = 7; bytes = 0xFF ∷ 0xD8 ∷ 0xFF ∷ []; fin = false }
        ∷ [];
  };
}

-- Meanwhile the camera writes the other buffer.
abbrev meanwhile : Server Bench → Server Bench
meanwhile s = record s { ctx = record s.ctx { frames = fill_buffer 1 (5 ∷ []) s.ctx.frames } }

sends : send_frame bench_quic 1 meanwhile 0 none 7 0 3 (server 9 []) ≡ some (true, sent)
unfolding send_frame payload_loop send_with_pacing wait_for_pacing pacing_loop quic_varint_encode
    path_algo_on_sent fill_buffer write_front
sends = refl

still : Quiet {W = Bench} (λ b. b.log) 0 (λ s. Unit {0}) meanwhile
unfolding fill_buffer
still = record {
  keeps_buffer = λ s safe. refl;
  stays_safe = λ s safe. tt;
  sends_safely = λ s a w safe. tt;
  queues_nothing = λ s. refl;
}

decode-Decodes : Decodes wt_varint_decode
decode-Decodes v rest h = ground (arith, wt_varint_decode-varint v rest)

abbrev generous : Host (Unit {0})
generous = record { alloc = λ n d. (true, d); fopen = λ n d. (true, d) }

abbrev client : Receiver (Unit {0})
client = record {
  max_frames = 0;
  frame_count = 0;
  has_out_dir = true;
  has_buffer = true;
  buffer_size = 4;
  frame_size = 0;
  received = [];
  running = true;
  closed = false;
  files = [];
  disk = tt;
}

-- The frame comes in two chunks.
two_chunks : Cuts [] ((0xFF ∷ 0xD8 ∷ 0xFF ∷ []) ∷ []) ((3 ∷ 0xFF ∷ []) ∷ (0xD8 ∷ 0xFF ∷ []) ∷ [])
unfolding varint
two_chunks =
    into [] [] (0xFF ∷ []) (0xD8 ∷ 0xFF ∷ []) (omega arith) refl refl (up_to [] [] refl refl ended)

frame_arrives_example :
    (ws : List Write) × (sent.world.log ≡ [] ++ ws)
    × (bytes_of ws ≡ wires ((0xFF ∷ 0xD8 ∷ 0xFF ∷ []) ∷ []))
    × (app' : Receiver (Unit {0})) × (receive_all wt_varint_decode decode-Decodes generous
          (λ n d. refl)
          3
          ((3 ∷ 0xFF ∷ []) ∷ (0xD8 ∷ 0xFF ∷ []) ∷ [])
          client
        ≡ some app')
    × Took ((0xFF ∷ 0xD8 ∷ 0xFF ∷ []) ∷ []) client app'
frame_arrives_example =
    frame_arrives bench_quic (λ b. b.log) bench_Queues bench_Permits 0 meanwhile 0 (λ s. Unit {0})
      still wt_varint_decode decode-Decodes generous (λ n d. refl) (λ n d. refl) 0 none 7 3
      (server 9 []) sent client ((3 ∷ 0xFF ∷ []) ∷ (0xD8 ∷ 0xFF ∷ []) ∷ []) tt (omega arith)
      (omega arith) (omega arith) (record { no_frame = refl; buffer = inl refl }) sends refl
      two_chunks
