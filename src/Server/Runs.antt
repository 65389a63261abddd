-- ===== src/Server/Runs.antt =====
-- The theorems on the streaming server at a small concrete picoquic.
use m_quic.Prelude.{ℕ, ◌≡◌, refl, arith, true, false, pos, minus_one, ◌⊎◌}
use m_quic.Prelude.{List, [], ◌∷◌, ◌++◌, replicate, none, some, set}
use m_quic.Varint.{quic_varint_encode}
use m_quic.Quic.Laws.{Write}
use m_quic.Quic.Bench.{
  Bench, bench_quic, bench_Queues, bench_Permits, lan, open_quic, open_Queues, open_Permits,
}
use m_quic.Server.{Server, StreamerContext, Binding, unbound}
use m_quic.Server.Pacing.{pacing_loop, wait_for_pacing, send_with_pacing}
use m_quic.Server.Bindings.{open_stream, ensure_stream_for_path, finish_all_bindings}
use m_quic.Server.Bindings.Laws.{ensure_stream_opens, finish_all_bindings-fins}
use m_quic.Server.Bindings.Table.{IsBound, unbound-IsBound, ensure_stream-IsBound}
use m_quic.Server.Network.{Locals, send_frame}
use m_quic.Server.Network.Payload.{Quiet, Chunks, bytes_of, send_frame_sends}
use m_quic.Server.Frames.{fill_buffer}
use m_quic.Server.Handlers.{camera_wt_callback, close}

abbrev bench : Bench
bench = record {
  time = 1000;
  room = 9;
  state = 13;
  array = lan ∷ none ∷ [];
  next_id = 7;
  contexts = 0;
  log = [];
}

abbrev eight_unbound : List Binding
eight_unbound = replicate 8 unbound

abbrev one_bound : List Binding
one_bound = set eight_unbound 0 (record { path_idx = 0; sid = 7; ready = true })

abbrev context : List Binding → StreamerContext
context bs = record {
  has_camera = true;
  frames = record {
    frame_buffer = record { at_zero = 0xFF ∷ 0xD8 ∷ 0xFF ∷ []; at_one = 1 ∷ 2 ∷ 3 ∷ [] };
    frame_buffer_size = 3;
    ready_size = record { at_zero = 2; at_one = 0 };
    has_frame = record { at_zero = true; at_one = false };
    active_idx = 1;
    ready_idx = 0;
  };
  is_sending = true;
  frame_count = 0;
  max_frames = 100;
  has_cnx = true;
  control_stream_id = 4;
  algo = none;
  bind = bs;
}

abbrev fresh : Server Bench
fresh = record { ctx = context eight_unbound; world = bench }

abbrev bound : Server Bench
bound = record { ctx = context one_bound; world = bench }

abbrev locals : Locals
locals = record {
  cur_idx = 0;
  cur_path = lan;
  last_activity_us = 0;
  fps_window_start_ms = 0;
  fps_count = 0;
}

sends_at_once :
    send_with_pacing bench_quic 2 lan 7 (1 ∷ 2 ∷ []) false bench
    ≡ some (
      pos 0,
      record bench {
        room = 8;
        next_id = 11;
        contexts = 0;
        log = record { sid = 7; bytes = 1 ∷ 2 ∷ []; fin = false } ∷ [];
      },
    )
unfolding send_with_pacing wait_for_pacing pacing_loop
sends_at_once = refl

opens_seven :
    ensure_stream_for_path bench_quic 2 (pos 0) (record fresh { world = bench })
    ≡ some (
      pos 0,
      record bound {
        world = record bench {
          room = 8;
          next_id = 11;
          contexts = 0;
          log = record { sid = 7; bytes = 0x40 ∷ 0x54 ∷ 4 ∷ []; fin = false } ∷ [];
        };
      },
    )
unfolding ensure_stream_for_path open_stream send_with_pacing wait_for_pacing pacing_loop
    quic_varint_encode
opens_seven = refl

ensure_stream-IsBound_example : IsBound one_bound
ensure_stream-IsBound_example =
    ensure_stream-IsBound bench_quic 2 (pos 0) (record fresh { world = bench })
      (record bound {
        world = record bench {
          room = 8;
          next_id = 11;
          contexts = 0;
          log = record { sid = 7; bytes = 0x40 ∷ 0x54 ∷ 4 ∷ []; fin = false } ∷ [];
        };
      })
      (pos 0) unbound-IsBound opens_seven

ensure_stream_opens_example :
    (w : Bench) × (((ensure_stream_for_path bench_quic 2 (pos 0) fresh
          ≡ some (pos 0, record bound { world = w }))
        × (w.log ≡ record { sid = 7; bytes = 0x40 ∷ 0x54 ∷ 4 ∷ []; fin = false } ∷ []))
      ⊎ ((ensure_stream_for_path bench_quic 2 (pos 0) fresh
            ≡ some (minus_one, record fresh { world = w }))
          × (w.log ≡ [])))
unfolding quic_varint_encode
ensure_stream_opens_example =
    ensure_stream_opens bench_quic (λ b. b.log) bench_Queues bench_Permits 1 0 fresh refl
      (omega arith) (omega arith) refl refl refl refl

-- Meanwhile the camera writes the other buffer, and the session is closed.
abbrev meanwhile : Server Bench → Server Bench
meanwhile s =
    camera_wt_callback bench_quic close
      (record s { ctx = record s.ctx { frames = fill_buffer 1 (5 ∷ []) s.ctx.frames } })

meanwhile-Quiet : Quiet (λ b. b.log) 0 (λ s. Unit {0}) meanwhile
unfolding fill_buffer camera_wt_callback
meanwhile-Quiet = record {
  keeps_buffer = λ s safe. refl;
  stays_safe = λ s safe. tt;
  sends_safely = λ s a w safe. tt;
  queues_nothing = λ s. refl;
}

send_frame_sends_example :
    (s' : Server Bench) × (ws : List Write) × (left : List ℕ) × (((send_frame bench_quic 1 meanwhile
            0 lan 7 0 3 bound
          ≡ some (false, s'))
        × (s'.ctx.is_sending ≡ false)
        × (s'.world.log ≡ []))
      ⊎ ((send_frame bench_quic 1 meanwhile 0 lan 7 0 3 bound ≡ some (true, s'))
          × (s'.world.log ≡ record { sid = 7; bytes = quic_varint_encode 3; fin = false } ∷ ws)
          × (0xFF ∷ 0xD8 ∷ 0xFF ∷ [] ≡ bytes_of ws ++ left)
          × Chunks 7 ws
          × (((s'.ctx.is_sending ≡ true) × (left ≡ [])) ⊎ (s'.ctx.is_sending ≡ false))))
send_frame_sends_example =
    send_frame_sends bench_quic (λ b. b.log) bench_Queues bench_Permits 0 meanwhile 0
      (λ s. Unit {0}) meanwhile-Quiet 0 lan 7 3 bound tt

finish_all_bindings-fins_example :
    (w : Bench) × (finish_all_bindings open_quic 2 bound ≡ some (tt, record bound { world = w }))
    × (w.log ≡ record { sid = 7; bytes = []; fin = true } ∷ [])
finish_all_bindings-fins_example =
    finish_all_bindings-fins open_quic (λ b. b.log) open_Queues open_Permits
      (λ sid bytes fin w. refl) 2 (λ w. refl) 1 bound refl refl
