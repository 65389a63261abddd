-- ===== src/Server/Network/Round.antt =====
-- Each round of the network thread comes to an end and keeps an invariant of the server.
use m_quic.Prelude.{ℕ, zero, suc, ◌+◌, ◌-◌, ◌<◌, ◌≡◌, refl, arith, ltb, Bool, true, false}
use m_quic.Prelude.{
  minus_one, index_of, inl, inr, ℤ, pos, is_ok, is_index, List, [], length, Option, none, some,
  if◌then◌else◌, Bool-cases, ltb→lt,
}
use m_quic.Prelude.{◌&&◌, not}
use m_quic.PathAlgo.{
  PathAlgo, path_algo_refresh, path_algo_pick_send_path, QuicPath, path_at, is_verified,
}
use m_quic.Quic.{Quic}
use m_quic.Quic.Laws.{Permits}
use m_quic.Server.{Server, max_paths, on_world}
use m_quic.Server.Frames.{pop_ready_frame}
use m_quic.Server.Pacing.{send_with_pacing}
use m_quic.Server.Pacing.Laws.{send_with_pacing_ends}
use m_quic.Server.Bindings.{binding, record_binding, open_stream, ensure_stream_for_path, wt_header}
use m_quic.Server.Network.{Locals, stop_sending, chunk_size, payload_loop, send_frame}
use m_quic.Server.Network.{probe_turn, frame_turn, idle_turn, network_round, nudge}
use m_quic.Server.Network.Payload.{rounds_left}
use m_quic.Server.Network.Answers.{
  Answers, Allows, answered, Allows-of, Allows-continue, Allows-if, Allows-Answers, Ends,
  Ends-continue, Ends-if, Ends-or,
}
use m_quic.Prelude.{◌⊎◌, Option-cases}
use m_quic.Prelude.Effect.{Eff}

-- An invariant that every step of the network thread keeps.
pub record IsKept {W : Type 0} (q : Quic W) (rounds : ℕ) (P : Server W → Type 0) : Type 0 where
  pub keeps_world : (s : Server W) (w : W) → P s → P (record s { world = w })
  pub keeps_algo :
      (s : Server W) (a : Option PathAlgo) → P s → P (record s { ctx = record s.ctx { algo = a } })
  pub keeps_stop : (s : Server W) → P s → P (record s { ctx = record s.ctx { is_sending = false } })
  pub keeps_count :
      (s : Server W) (k : ℕ) → P s → P (record s { ctx = record s.ctx { frame_count = k } })
  pub keeps_pop :
      (s : Server W)
      → P s
      → P (record s { ctx = record s.ctx { frames = (pop_ready_frame s.ctx.frames).1 } })
  pub keeps_ensure :
      (pidx : ℤ) (s s' : Server W) (r : ℤ)
      → P s
      → ensure_stream_for_path q rounds pidx s ≡ some (r, s')
      → P s'

module _ {W : Type 0} (q : Quic W) (permits : Permits q) (n : ℕ) where
  header-Ends :
      (i : ℕ) (path : Option QuicPath) (sid : ℕ) (r : ℤ) (s : Server W)
      → Ends (
          if is_ok r
          then some (pos 0, record_binding q (suc n) i path sid s)
          else some (minus_one, s))
  header-Ends i path sid r s =
      Ends-if (is_ok r) _ _ (pos 0, record_binding q (suc n) i path sid s, refl)
        (minus_one, s, refl)

  open-Ends :
      (i : ℕ) (path : Option QuicPath) (s : Server W) → Ends (open_stream q (suc n) i path s)
  unfolding open_stream
  open-Ends i path s =
      let sid = q.next_local_stream_id true s.world in
      let (r, w, e) =
        send_with_pacing_ends q permits n path sid (wt_header s.ctx.control_stream_id) false
          s.world in
      Ends-if _ _ _
        (Ends-continue
          (on_world (send_with_pacing q (suc n) path sid (wt_header s.ctx.control_stream_id) false)
            s)
          _ r (record s { world = w }) (ground (arith, e))
          (header-Ends i path sid r (record s { world = w })))
        (minus_one, s, refl)

  ensure-Ends : (pidx : ℤ) (s : Server W) → Ends (ensure_stream_for_path q (suc n) pidx s)
  unfolding ensure_stream_for_path
  ensure-Ends pidx s =
      let i = index_of pidx in
      let ps = q.paths s.world in
      Ends-or (not s.ctx.has_cnx) minus_one s _ (
        Ends-or (not (is_index pidx (length ps) && is_index pidx max_paths)) minus_one s _ (
          Ends-or (binding s.ctx.bind i).ready (pos 0) s _ (
            Ends-or (not (is_verified (path_at ps i))) minus_one s _
              (open-Ends i (path_at ps i) s))))

module _ {W : Type 0} (q : Quic W) (T : Type 0) (excuse : Permits q ⊎ T) (n : ℕ)
    (others : Server W → Server W) (P : Server W → Type 0) (kept : IsKept q (suc n) P)
    (keeps : (s : Server W) → P s → P (others s)) where
  world-Allows :
      (f : Eff W ℤ) (s : Server W) → Ends (f s.world) ⊎ T → P s → Allows T P (on_world f s)
  world-Allows f s h v =
      Allows-of T P _
        (elim h [
          | inr t ↦ inr t
          | inl (r, w, e) ↦ inl (r, record s { world = w }, ground (arith, e))
        ])
        (λ r s' e. elim (Option-cases (f s.world)) [
          | inl none_left ↦ absurd (ground (arith, none_left, e))
          | inr ((r', w), e') ↦
              let same : s' ≡ record s { world = w } = ground (arith, e, e') in
              rw same (kept.keeps_world s w v)
        ])

  send-Allows :
      (path : Option QuicPath) (sid : ℕ) (buf : List ℕ) (fin : Bool) (s : Server W)
      → P s
      → Allows T P (on_world (send_with_pacing q (suc n) path sid buf fin) s)
  send-Allows path sid buf fin s v =
      world-Allows (send_with_pacing q (suc n) path sid buf fin) s
        (elim excuse [
          | inr t ↦ inr t
          | inl permits ↦ inl (send_with_pacing_ends q permits n path sid buf fin s.world)
        ])
        v

  ensure-Allows :
      (pidx : ℤ) (s : Server W) → P s → Allows T P (ensure_stream_for_path q (suc n) pidx s)
  ensure-Allows pidx s v =
      Allows-of T P _
        (elim excuse [ inr t ↦ inr t | inl permits ↦ inl (ensure-Ends q permits n pidx s) ])
        (λ r s' e. kept.keeps_ensure pidx s s' r v e)

  payload-Allows :
      (m send_idx : ℕ) (path : Option QuicPath) (sid fb fb_sz sent : ℕ) (s : Server W)
      → fb_sz - sent < m
      → P s
      → Allows T P (payload_loop q (suc n) others m send_idx path sid fb fb_sz sent s)
  unfolding payload_loop
  payload-Allows zero send_idx path sid fb fb_sz sent s h v = absurd (omega arith)
  payload-Allows (suc m) send_idx path sid fb fb_sz sent s h v =
      elim (Bool-cases (ltb sent fb_sz)) [
        | inr over ↦ rw over (answered tt (others s) (keeps s v))
        | inl under ↦
            Allows-if T P _ _ _
              (Allows-continue T P _ _ (send-Allows path sid _ false (others s) (keeps s v))
                (λ r s1 v1.
                  Allows-if T P (is_ok r) _ _
                    (payload-Allows m send_idx path sid fb fb_sz (sent + chunk_size fb_sz sent) _
                      (rounds_left m fb_sz sent h (ltb→lt sent fb_sz under))
                      (kept.keeps_algo s1 _ v1))
                    (answered tt (stop_sending s1) (kept.keeps_stop s1 v1))))
              (answered tt (others s) (keeps s v))
      ]

  send_frame-Allows :
      (send_idx : ℕ) (path : Option QuicPath) (sid fb fb_sz : ℕ) (s : Server W)
      → P s
      → Allows T P (send_frame q (suc n) others send_idx path sid fb fb_sz s)
  unfolding send_frame
  send_frame-Allows send_idx path sid fb fb_sz s v =
      Allows-continue T P _ _ (send-Allows path sid _ false s v) (λ r s1 v1.
        Allows-if T P (is_ok r) _ _
          (Allows-continue T P _ _
            (payload-Allows (suc fb_sz) send_idx path sid fb fb_sz 0 s1 (omega arith) v1)
            (λ _ s2 v2. answered true s2 v2))
          (answered false (stop_sending s1) (kept.keeps_stop s1 v1)))

  probe-Allows :
      (probe_idx : ℤ) (s : Server W) → P s → Allows T P (probe_turn q (suc n) others probe_idx s)
  unfolding probe_turn
  probe-Allows probe_idx s v =
      Allows-if T P _ _ _
        (Allows-continue T P _ _ (ensure-Allows probe_idx s v) (λ r s1 v1.
          Allows-if T P (is_ok r) _ _
            (Allows-continue T P _ _ (send-Allows _ _ _ false s1 v1) (λ _ s2 v2. answered tt s2 v2))
            (answered tt s1 v1)))
        (answered tt s v)

  nudge-Allows :
      (path : Option QuicPath) (sid : ℕ) (s : Server W)
      → P s
      → Allows T P (nudge q (suc n) others path sid s)
  nudge-Allows path sid s v =
      Allows-continue T P _ _ (send-Allows path sid [] false s v) (λ _ s1 v1. answered tt s1 v1)

  frame-Allows :
      (l : Locals) (send_idx fb fb_sz : ℕ) (s : Server W)
      → P s
      → Allows T P (frame_turn q (suc n) others l send_idx fb fb_sz s)
  unfolding frame_turn
  frame-Allows l send_idx fb fb_sz s v =
      Allows-continue T P _ _
        (send_frame-Allows send_idx (path_at (q.paths s.world) send_idx)
          (binding s.ctx.bind send_idx).sid fb fb_sz s v)
        (λ sent s1 v1.
          Allows-if T P sent _ _
            (answered _ _ (kept.keeps_world _ _ (kept.keeps_count s1 (s1.ctx.frame_count + 1) v1)))
            (answered none s1 v1))

  idle-Allows : (l : Locals) (s : Server W) → P s → Allows T P (idle_turn q (suc n) others l s)
  unfolding idle_turn
  idle-Allows l s v =
      let v1 = kept.keeps_world s (q.current_time s.world).1 v in
      Allows-if T P _ _ _
        (Allows-continue T P _ _
          (Allows-if T P (binding s.ctx.bind l.cur_idx).ready _ _ (nudge-Allows _ _ _ v1) (
            Allows-continue T P _ _ (ensure-Allows (pos l.cur_idx) _ v1)
              (λ _ s2 v2. answered tt s2 v2)))
          (λ _ s2 v2. answered _ _ (kept.keeps_world _ _ (kept.keeps_algo s2 _ v2))))
        (answered _ _ (kept.keeps_world _ _ v1))

  ready-Allows :
      (l : Locals) (send_idx : ℕ) (out : Option (ℕ × ℕ)) (s : Server W)
      → P s
      → Allows T P (elim out [
        | none ↦ idle_turn q (suc n) others l s
        | some (fb, fb_sz) ↦
            (if ltb 0 fb_sz
              then frame_turn q (suc n) others l send_idx fb fb_sz s
              else idle_turn q (suc n) others l s)
      ])
  ready-Allows l send_idx none s v = idle-Allows l s v
  ready-Allows l send_idx (some (fb, fb_sz)) s v =
      Allows-if T P (ltb 0 fb_sz) _ _ (frame-Allows l send_idx fb fb_sz s v) (idle-Allows l s v)

  -- Each round of the network thread that answers keeps every property of the server that its single
  -- operations and the other threads keep, whatever picoquic answers.
  pub network_round-Allows :
      (l : Locals) (s : Server W) → P s → Allows T P (network_round q (suc n) others l s)
  unfolding network_round
  network_round-Allows l s v =
      let refreshed = kept.keeps_algo s (path_algo_refresh s.ctx.algo) v in
      let (now_us, w1) = q.current_time s.world in
      let begun = kept.keeps_algo _ _ (kept.keeps_world _ w1 refreshed) in
      Allows-if T P _ _ _ (answered none s v) (
        Allows-continue T P _ _ (probe-Allows _ _ begun) (λ _ s2 v2.
          Allows-continue T P _ _ (ensure-Allows _ _ (kept.keeps_algo s2 _ v2)) (λ _ s3 v3.
            let s4 = others s3 in
            let (out, frames) = pop_ready_frame s4.ctx.frames in
            let (picked, algo2) = path_algo_pick_send_path s2.ctx.algo (some (q.paths s2.world)) in
            ready-Allows l
              (if is_index picked (length (q.paths s2.world)) then index_of picked else l.cur_idx)
              out (record s4 { ctx = record s4.ctx { frames = frames } })
              (kept.keeps_pop s4 (keeps s3 v3)))))

module _ {W : Type 0} (q : Quic W) (permits : Permits q) (n : ℕ) (others : Server W → Server W)
    (P : Server W → Type 0) (kept : IsKept q (suc n) P)
    (keeps : (s : Server W) → P s → P (others s)) where
  pub ensure-Answers :
      (pidx : ℤ) (s : Server W) → P s → Answers P (ensure_stream_for_path q (suc n) pidx s)
  ensure-Answers pidx s v =
      Allows-Answers P _ (ensure-Allows q ⊥ (inl permits) n others P kept keeps pidx s v)

  -- Where pacing permits each write, a round of the network thread answers as well.
  pub network_round-Answers :
      (l : Locals) (s : Server W) → P s → Answers P (network_round q (suc n) others l s)
  network_round-Answers l s v =
      Allows-Answers P _ (network_round-Allows q ⊥ (inl permits) n others P kept keeps l s v)
