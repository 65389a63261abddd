-- ===== src/Server/Invariant.antt =====
-- The invariant of the server of src/quic_server.c, on its buffers and its table of bindings, and the
-- single operations of its threads. The child `Reach` puts the threads and the callbacks together.
pub mod Reach
mod Runs
use m_quic.Prelude.{
  ℕ, suc, ◌≡◌, refl, arith, inl, inr, Bool, true, false, ◌⊎◌, ℤ, pos, negsuc, is_ok,
}
use m_quic.Prelude.{
  List, Option, none, some, Bool-cases, Option-cases, bit_and, index_of, replicate, ◌==◌,
  if◌then◌else◌,
}
use m_quic.PathAlgo.{QuicPath, path_at, path_algo_create, path_algo_refresh}
use m_quic.Server.Handlers.{initial_context}
use m_quic.Server.Frames.{Two}
use m_quic.Quic.{Quic}
use m_quic.Quic.Laws.{Permits}
use m_quic.Server.{Server, StreamerContext, max_paths, unbound, keepalive_interval_us}
use m_quic.WebTransport.{h3_send_status_200_headers}
use m_quic.Server.Pacing.{send_with_pacing}
use m_quic.Server.Frames.{
  FrameBuffers, Turn, wait, capture, pop_ready_frame, camera_check, backlog_full,
}
use m_quic.Server.Frames.Laws.{IsValid, pop_ready_frame-IsValid, camera_check-IsValid}
use m_quic.Server.Bindings.{open_stream, ensure_stream_for_path, wt_header}
use m_quic.Server.Bindings.Table.{IsBound, unbound-IsBound, ensure_stream-IsBound}
use m_quic.Server.Network.{Locals, network_round}
use m_quic.Server.Network.Round.{IsKept, network_round-Allows}
use m_quic.Server.Network.Answers.{Allows-some}
use m_quic.PathAlgo.{PathAlgo}
use m_quic.Server.Handlers.{
  Capture, CreateThread, WtEvent, close, stop_sending, stream_reset, other, with_frames,
  capture_turn, camera_round, camera_wt_callback, camera_path_callback, start_threads,
}
use m_quic.Server.Handlers.Laws.{capture_turn-IsValid}

pub record IsSound {W : Type 0} (s : Server W) : Type 0 where
  pub buffers : IsValid s.ctx.frames
  pub table : IsBound s.ctx.bind

-- The server that `run_server` begins with is sound.
pub initial_context-IsSound :
    {W : Type 0} (memory : Two (List ℕ)) (w : W)
    → IsSound (record { ctx = initial_context memory; world = w })
unfolding initial_context
initial_context-IsSound memory w = record {
  buffers = record {
    active_in = omega arith;
    ready_in = omega arith;
    apart = λ e. absurd (omega (arith, e));
    size_zero = omega arith;
    size_one = omega arith;
  };
  table = unbound-IsBound;
}

-- Other threads that keep the server sound.
pub record IsFriendly {W : Type 0} (others : Server W → Server W) : Type 0 where
  pub keeps_buffers : (s : Server W) → IsValid s.ctx.frames → IsValid (others s).ctx.frames
  pub keeps_table : (s : Server W) → IsBound s.ctx.bind → IsBound (others s).ctx.bind

module _ {W : Type 0} (q : Quic W) (n : ℕ) where
  open_stream_frames :
      (i : ℕ) (path : Option QuicPath) (s s' : Server W) (r : ℤ)
      → open_stream q (suc n) i path s ≡ some (r, s')
      → s'.ctx.frames ≡ s.ctx.frames
  unfolding open_stream
  open_stream_frames i path s s' r e =
      let sid = q.next_local_stream_id true s.world in
      elim (Option-cases
        (send_with_pacing q (suc n) path sid (wt_header s.ctx.control_stream_id) false s.world)) [
          | inl stuck ↦ ground (arith, stuck)
          | inr ((r', w), sent) ↦ elim (Bool-cases (bit_and sid 0x3 == 0x3)) [
            | inl uni ↦ ground (arith, sent, uni)
            | inr odd ↦ ground (arith, odd)
          ]
        ]

  ensure_stream_cases :
      (pidx : ℤ) (s s' : Server W) (r : ℤ)
      → ensure_stream_for_path q (suc n) pidx s ≡ some (r, s')
      → (s'.ctx.frames ≡ s.ctx.frames)
        ⊎ (open_stream q (suc n) (index_of pidx) (path_at (q.paths s.world) (index_of pidx)) s
            ≡ some (r, s'))
  unfolding ensure_stream_for_path
  ensure_stream_cases (pos i) s s' r e = ground arith
  ensure_stream_cases (negsuc i) s s' r e = ground arith

  ensure_stream-IsValid :
      (pidx : ℤ) (s s' : Server W) (r : ℤ)
      → IsValid s.ctx.frames
      → ensure_stream_for_path q (suc n) pidx s ≡ some (r, s')
      → IsValid s'.ctx.frames
  ensure_stream-IsValid pidx s s' r v e = elim (ensure_stream_cases pidx s s' r e) [
    | inl same ↦ rw same v
    | inr opened ↦
        rw
          (open_stream_frames (index_of pidx) (path_at (q.paths s.world) (index_of pidx)) s s' r
            opened)
          v
  ]

  -- Each step of the network thread keeps it.
  pub IsSound-IsKept : IsKept q (suc n) IsSound
  IsSound-IsKept = record {
    keeps_world = λ s w v. record { buffers = v.buffers; table = v.table };
    keeps_algo = λ s a v. record { buffers = v.buffers; table = v.table };
    keeps_stop = λ s v. record { buffers = v.buffers; table = v.table };
    keeps_count = λ s k v. record { buffers = v.buffers; table = v.table };
    keeps_pop = λ s v. record { buffers = pop_ready_frame-IsValid v.buffers; table = v.table };
    keeps_ensure = λ pidx s s' r v e. record {
      buffers = ensure_stream-IsValid pidx s s' r v.buffers e;
      table = ensure_stream-IsBound q (suc n) pidx s s' r v.table e;
    };
  }
