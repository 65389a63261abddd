-- ===== src/Server/Network.antt =====
-- The network thread, src/quic_server.c: `network_thread_func`, with one frame sent by `send_frame`
-- and one round of the loop by `network_round`. `others` is what the other threads do to the shared
-- context between two accesses of this one.
pub mod Payload
pub mod Answers
pub mod Round
pub mod Ends
use m_quic.Prelude.{ℕ, zero, suc, ◌+◌, ◌-◌, ◌*◌, ◌/◌, ◌%◌, ◌^◌, ltb, leb, ◌==◌, if◌then◌else◌}
use m_quic.Prelude.{Bool, true, false, ◌&&◌, ◌||◌, not, ℤ, pos, is_ok, is_index, index_of}
use m_quic.Prelude.{List, [], length, take, drop, replicate, Option, none, some}
use m_quic.Prelude.Effect.{Eff, pure, continue}
use m_quic.Varint.{quic_varint_encode}
use m_quic.PathAlgo.{QuicPath, Paths, path_at, PathAlgo, path_algo_create, path_algo_destroy}
use m_quic.PathAlgo.{path_algo_refresh, path_algo_pick_send_path, path_algo_pick_probe_path}
use m_quic.PathAlgo.{path_algo_on_sent, path_algo_on_idle}
use m_quic.Quic.{Quic}
use m_quic.Server.{Server, StreamerContext, unbound, max_paths, on_world, mtu_chunk_bytes}
use m_quic.Server.{one_second_us}
use m_quic.Server.Frames.{get_two, pop_ready_frame}
use m_quic.Server.Pacing.{send_with_pacing}
use m_quic.Server.Bindings.{binding, ensure_stream_for_path, finish_all_bindings}

-- The variables of the loop.
pub record Locals : Type 0 where
  pub cur_idx : ℕ
  pub cur_path : Option QuicPath
  pub last_activity_us : ℕ
  pub fps_window_start_ms : ℕ
  pub fps_count : ℕ

module _ {W : Type 0} where
  abbrev pub stop_sending : Server W → Server W
  stop_sending s = record s { ctx = record s.ctx { is_sending = false } }

  abbrev pub with_algo : Option PathAlgo → Server W → Server W
  with_algo a s = record s { ctx = record s.ctx { algo = a } }

  abbrev pub with_world : W → Server W → Server W
  with_world w s = record s { world = w }

-- `(fb_sz - sent > mtu_size) ? mtu_size : (fb_sz - sent)`
abbrev pub chunk_size : ℕ → ℕ → ℕ
chunk_size fb_sz sent = if ltb mtu_chunk_bytes (fb_sz - sent) then mtu_chunk_bytes else fb_sz - sent

module _ {W : Type 0} (q : Quic W) (rounds : ℕ) (others : Server W → Server W) where
  -- The loop over the chunks of a frame in buffer `fb`, with a number of rounds.
  unfoldable pub payload_loop : ℕ → ℕ → Option QuicPath → ℕ → ℕ → ℕ → ℕ → Eff (Server W) (Unit {0})
  payload_loop zero send_idx path sid fb fb_sz sent s = none
  payload_loop (suc n) send_idx path sid fb fb_sz sent s =
      let s0 = others s in
      let to_send : ℕ = chunk_size fb_sz sent in
      let chunk = take to_send (drop sent (get_two s0.ctx.frames.frame_buffer fb)) in
      let more = continue (on_world (send_with_pacing q rounds path sid chunk false) s0) (λ ret s1.
        if is_ok ret
        then payload_loop n send_idx path sid fb fb_sz (sent + to_send)
            (with_algo (path_algo_on_sent s1.ctx.algo (pos send_idx) to_send) s1)
        else some (tt, stop_sending s1)) in
      if ltb sent fb_sz && s0.ctx.is_sending then more else some (tt, s0)

  -- The length and then the payload. The answer is whether the length was sent; a frame that is
  -- cut off in its payload only clears `is_sending`.
  unfoldable pub send_frame : ℕ → Option QuicPath → ℕ → ℕ → ℕ → Eff (Server W) Bool
  send_frame send_idx path sid fb fb_sz s =
      continue (on_world (send_with_pacing q rounds path sid (quic_varint_encode fb_sz) false) s)
        (λ ret s1.
          if is_ok ret
          then continue (payload_loop (suc fb_sz) send_idx path sid fb fb_sz 0 s1)
              (λ _ s2. some (true, s2))
          else some (false, stop_sending s1))

  -- `now_ms`
  unfoldable pub now_ms : W → ℕ × W
  now_ms w =
      let (tv_sec, tv_usec, w') = q.gettimeofday w in
      ((tv_sec * 1000 % 2 ^ 64 + tv_usec / 1000) % 2 ^ 64, w')

  -- The meter of frames per second, which starts a new window after each second.
  unfoldable pub count_fps : ℕ → Locals → Locals
  count_fps ms_now l =
      let start : ℕ = if l.fps_window_start_ms == 0 then ms_now else l.fps_window_start_ms in
      if leb 1000 ((ms_now + 2 ^ 64 - start) % 2 ^ 64)
      then record l { fps_count = 0; fps_window_start_ms = ms_now }
      else record l { fps_count = l.fps_count + 1; fps_window_start_ms = start }

  -- An empty write on a bound path, the result of which is not looked at.
  abbrev pub nudge : Option QuicPath → ℕ → Server W → Option (Unit {0} × Server W)
  nudge path sid s =
      continue (on_world (send_with_pacing q rounds path sid [] false) s) (λ _ s1. some (tt, s1))

  unfoldable pub probe_turn : ℤ → Eff (Server W) (Unit {0})
  probe_turn probe_idx s =
      let i = index_of probe_idx in
      if is_index probe_idx (length (q.paths s.world)) && is_index probe_idx max_paths
      then continue (ensure_stream_for_path q rounds probe_idx s) (λ ret s1.
        if is_ok ret
        then nudge (path_at (q.paths s1.world) i) (binding s1.ctx.bind i).sid s1
        else some (tt, s1))
      else some (tt, s)

  -- `if (ctx->frame_count >= ctx->max_frames) break;` The answer is `none` for a break.
  abbrev pub unless_done : Locals → Server W → Option (Option Locals × Server W)
  unless_done l s = some ((if leb s.ctx.max_frames s.ctx.frame_count then none else some l), s)

  unfoldable pub frame_turn : Locals → ℕ → ℕ → ℕ → Eff (Server W) (Option Locals)
  frame_turn l send_idx fb fb_sz s =
      let path = path_at (q.paths s.world) send_idx in
      continue (send_frame send_idx path (binding s.ctx.bind send_idx).sid fb fb_sz s)
        (λ length_sent s1.
          let (ms_now, w1) = now_ms s1.world in
          let (now_us, w2) = q.current_time w1 in
          let counted = count_fps ms_now l in
          let l' = record counted {
            last_activity_us = now_us;
            cur_idx = send_idx;
            cur_path = path;
          } in
          let s2 = record s1 {
            ctx = record s1.ctx { frame_count = s1.ctx.frame_count + 1 };
            world = w2;
          } in
          if length_sent then unless_done l' s2 else some (none, s1))

  -- Without a frame: a sign of life after a second of silence, and a pause of a millisecond.
  unfoldable pub idle_turn : Locals → Eff (Server W) (Option Locals)
  idle_turn l s =
      let (now_us, w1) = q.current_time s.world in
      let s1 = with_world w1 s in
      let b = binding s.ctx.bind l.cur_idx in
      let pause =
        λ (l' : Locals) (s2 : Server W). unless_done l' (with_world (q.usleep 1000 s2.world) s2) in
      let alive =
        if b.ready
        then nudge l.cur_path b.sid s1
        else continue (ensure_stream_for_path q rounds (pos l.cur_idx) s1)
            (λ _ s2. some (tt, s2)) in
      if ltb one_second_us ((now_us + 2 ^ 64 - l.last_activity_us) % 2 ^ 64)
      then continue alive (λ _ s2.
        pause (record l { last_activity_us = now_us })
          (with_algo (path_algo_on_idle s2.ctx.algo now_us) s2))
      else pause l s1

  -- One round of the loop, behind the test of `is_sending`.
  unfoldable pub network_round : Locals → Eff (Server W) (Option Locals)
  network_round l s =
      let s1 = with_algo (path_algo_refresh s.ctx.algo) s in
      let (now_us, w1) = q.current_time s1.world in
      let (probe_idx, algo1) = path_algo_pick_probe_path s1.ctx.algo (some (q.paths w1)) now_us in
      if leb q.state_disconnecting (q.cnx_state s.world)
      then some (none, s)
      else continue (probe_turn probe_idx (with_algo algo1 (with_world w1 s1))) (λ _ s2.
        let (picked, algo2) = path_algo_pick_send_path s2.ctx.algo (some (q.paths s2.world)) in
        let send_idx : ℕ =
          if is_index picked (length (q.paths s2.world)) then index_of picked else l.cur_idx in
        continue (ensure_stream_for_path q rounds (pos send_idx) (with_algo algo2 s2)) (λ _ s3.
          let s4 = others s3 in
          let (out, frames) = pop_ready_frame s4.ctx.frames in
          let s5 = record s4 { ctx = record s4.ctx { frames = frames } } in
          elim out [
            | none ↦ idle_turn l s5
            | some (fb, fb_sz) ↦
                (if ltb 0 fb_sz then frame_turn l send_idx fb fb_sz s5 else idle_turn l s5)
          ]))

  unfoldable pub network_loop : ℕ → Locals → Eff (Server W) (Unit {0})
  network_loop zero l s = none
  network_loop (suc n) l s =
      let s0 = others s in
      let more =
        continue (network_round l s0)
          (λ out s1. elim out [ none ↦ some (tt, s1) | some l' ↦ network_loop n l' s1 ]) in
      if s0.ctx.is_sending then more else some (tt, s0)

  -- The thread, with a number of rounds for its loop. `allocated` is whether the scheduler's state
  -- could be allocated.
  unfoldable pub network_thread_func : ℕ → Bool → Eff (Server W) (Unit {0})
  network_thread_func n allocated s =
      let s1 = record s {
        ctx = record s.ctx {
          algo = path_algo_refresh (path_algo_create allocated);
          bind = replicate max_paths unbound;
        };
      } in
      let (picked, algo1) = path_algo_pick_send_path s1.ctx.algo (some (q.paths s1.world)) in
      let first : ℕ = if is_index picked (length (q.paths s1.world)) then index_of picked else 0 in
      if not s.ctx.has_cnx
      then some (tt, s)
      else continue (ensure_stream_for_path q rounds (pos first) (with_algo algo1 s1)) (λ _ s2.
        let (now_us, w3) = q.current_time s2.world in
        let l : Locals = record {
          cur_idx = first;
          cur_path = path_at (q.paths s2.world) first;
          last_activity_us = now_us;
          fps_window_start_ms = 0;
          fps_count = 0;
        } in
        continue (network_loop n l (with_world w3 s2)) (λ _ s4.
          continue (finish_all_bindings q rounds s4)
            (λ _ s5. some (tt, with_algo (path_algo_destroy s5.ctx.algo) s5))))
