-- ===== src/Server/Network/Ends/Runs.antt =====
-- The whole network thread at a small concrete picoquic, with a user who stops it after three turns.
use m_quic.Prelude.{ℕ, ◌-◌, ◌≤◌, ◌≡◌, refl, arith, true, false, ◌==◌, if◌then◌else◌, ap}
use m_quic.Prelude.{[], ◌∷◌, replicate, none}
use m_quic.Quic.Bench.{Bench, lan, open_quic, open_Queues, open_Permits}
use m_quic.Server.{Server, StreamerContext, unbound}
use m_quic.Server.Frames.Laws.{IsValid}
use m_quic.Server.Network.{network_thread_func}
use m_quic.Server.Network.Round.{IsKept}
use m_quic.Server.Network.Answers.{Answers}
use m_quic.Server.Network.Ends.{IsClosing, Finished, ensure_stream_ctx, network_thread_ends}

abbrev user : Server Bench → Server Bench
user s = record s {
  ctx = record s.ctx {
    is_sending = if s.ctx.max_frames == 0 then false else s.ctx.is_sending;
    max_frames = s.ctx.max_frames - 1;
  };
}

abbrev turns : Server Bench → ℕ
turns s = s.ctx.max_frames

turns-IsKept : (k : ℕ) → IsKept open_quic 2 (λ s. turns s ≤ k)
turns-IsKept k = record {
  keeps_world = λ s w v. v;
  keeps_algo = λ s a v. v;
  keeps_stop = λ s v. v;
  keeps_count = λ s j v. v;
  keeps_pop = λ s v. v;
  keeps_ensure = λ pidx s s' r v e.
      let same : s'.ctx.max_frames ≡ s.ctx.max_frames =
        ap (λ (c : StreamerContext). c.max_frames)
          (ensure_stream_ctx open_quic open_Permits 1 pidx s s' r e) in
      omega (arith, same, v);
}

user-IsClosing : IsClosing open_quic open_Permits 1 user turns
user-IsClosing = record {
  friendly = record { keeps_buffers = λ s v. v; keeps_table = λ s v. v };
  connected = λ s cnx. cnx;
  held = turns-IsKept;
  held_at_start = λ s a bs. omega arith;
  falls = λ s. omega arith;
  runs_down = λ s on. ground (arith, on);
}

abbrev server : Server Bench
server = record {
  ctx = record {
    has_camera = true;
    frames = record {
      frame_buffer = record { at_zero = 0xFF ∷ 0xD8 ∷ 0xFF ∷ []; at_one = 1 ∷ 2 ∷ 3 ∷ [] };
      frame_buffer_size = 3;
      ready_size = record { at_zero = 2; at_one = 0 };
      has_frame = record { at_zero = true; at_one = false };
      active_idx = 1;
      ready_idx = 0;
    };
    is_sending = true;
    frame_count = 0;
    max_frames = 3;
    has_cnx = true;
    control_stream_id = 4;
    algo = none;
    bind = replicate 8 unbound;
  };
  world = record {
    time = 1000;
    room = 9;
    state = 13;
    array = lan ∷ none ∷ [];
    next_id = 7;
    contexts = 0;
    log = [];
  };
}

server-IsValid : IsValid server.ctx.frames
server-IsValid = record {
  active_in = omega arith;
  ready_in = omega arith;
  apart = λ e. absurd (omega (arith, e));
  size_zero = omega arith;
  size_one = omega arith;
}

network_thread_ends_example :
    Answers (Finished (λ (b : Bench). b.log) 2) (network_thread_func open_quic 2 user 4 true server)
network_thread_ends_example =
    network_thread_ends open_quic open_Permits 1 user turns user-IsClosing (λ b. b.log) open_Queues
      (λ sid bytes fin w. refl) 2 (λ w. refl) 3 true server refl server-IsValid (omega arith)
