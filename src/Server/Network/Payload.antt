-- ===== src/Server/Network/Payload.antt =====
-- What one frame puts on its stream.
use m_quic.Prelude.{
  ℕ, zero, suc, ◌+◌, ◌-◌, ◌<◌, ◌≤◌, ◌≡◌, refl, ◌∙◌, sym, ap, arith, ltb, ◌⊎◌, inl, inr,
}
use m_quic.Prelude.{true, false, pos, is_ok, List, [], ◌∷◌, ◌++◌, length, take, drop, All}
use m_quic.Prelude.{window_split, drop_all, ltb→lt, length-take}
use m_quic.Prelude.{Option, some, Bool-cases, append-nil, append_assoc}
use m_quic.Varint.{quic_varint_encode}
use m_quic.PathAlgo.{PathAlgo, QuicPath, path_algo_on_sent}
use m_quic.Quic.{Quic}
use m_quic.Quic.Laws.{Write, Queues, Permits}
use m_quic.Server.{Server, mtu_chunk_bytes}
use m_quic.Server.Frames.{get_two}
use m_quic.Server.Pacing.Laws.{send_with_pacing_answers}
use m_quic.Server.Network.{chunk_size, payload_loop, send_frame, stop_sending, with_algo}

-- The other threads and the callbacks queue nothing and, from a state that is `Safe`, leave the
-- buffer that is being sent as it is and stay safe. They may write the other buffer and clear
-- `is_sending`. What the network thread itself changes meanwhile does not matter for `Safe`.
pub record Quiet {W : Type 0} (written : W → List Write) (fb : ℕ) (Safe : Server W → Type 0)
    (others : Server W → Server W) : Type 0 where
  pub keeps_buffer :
      (s : Server W)
      → Safe s
      → get_two (others s).ctx.frames.frame_buffer fb ≡ get_two s.ctx.frames.frame_buffer fb
  pub stays_safe : (s : Server W) → Safe s → Safe (others s)
  pub sends_safely :
      (s : Server W) (a : Option PathAlgo) (w : W)
      → Safe s
      → Safe (record { ctx = record s.ctx { algo = a }; world = w })
  pub queues_nothing : (s : Server W) → written (others s).world ≡ written s.world

-- The bytes of a list of writes, in order.
abbrev pub bytes_of : List Write → List ℕ
bytes_of [] = []
bytes_of (x ∷ ws) = x.bytes ++ bytes_of ws

-- Writes on one stream, none of which ends it, in chunks of at most 16 KiB.
abbrev pub Chunks : ℕ → List Write → Type 0
Chunks sid = All (λ x. (x.sid ≡ sid) × (x.fin ≡ false) × (length x.bytes ≤ mtu_chunk_bytes))

chunk_step :
    (fb_sz sent k : ℕ) (buf buf' bytes left : List ℕ)
    → buf' ≡ buf
    → k ≤ fb_sz - sent
    → drop (sent + k) (take fb_sz buf') ≡ bytes ++ left
    → drop sent (take fb_sz buf) ≡ (take k (drop sent buf') ++ bytes) ++ left
chunk_step fb_sz sent k buf buf' bytes left same h e = rw (← same) (
    window_split fb_sz sent k buf' h
    ∙ ap (λ t. take k (drop sent buf') ++ t) e
    ∙ sym (append_assoc (take k (drop sent buf')) bytes left))

pub rounds_left :
    (n fb_sz sent : ℕ)
    → fb_sz - sent < suc n
    → sent < fb_sz
    → fb_sz - (sent + chunk_size fb_sz sent) < n
rounds_left n fb_sz sent h lt = ground arith

module _ {W : Type 0} (q : Quic W) (written : W → List Write) (queues : Queues q written)
    (permits : Permits q) (rounds : ℕ) (others : Server W → Server W) (fb : ℕ)
    (Safe : Server W → Type 0) (quiet : Quiet written fb Safe others) where
  -- Where the loop ends: with everything sent and `is_sending` as it was, or stopped by a refused
  -- write, with `is_sending` cleared. `left` is what was not sent.
  abbrev IsDone : Server W → List ℕ → Type 0
  IsDone s left = ((s.ctx.is_sending ≡ true) × (left ≡ [])) ⊎ (s.ctx.is_sending ≡ false)

  IsDone-or_off : (s : Server W) → IsDone s []
  IsDone-or_off s = elim (Bool-cases s.ctx.is_sending) [
    | inl on ↦ inl (on, refl)
    | inr off ↦ inr off
  ]

  payload_loop_sends :
      (n send_idx : ℕ) (path : Option QuicPath) (sid fb_sz sent : ℕ) (s : Server W)
      → Safe s
      → fb_sz - sent < n
      → (s' : Server W) × (ws : List Write) × (left : List ℕ) × (payload_loop q
            (suc rounds)
            others
            n
            send_idx
            path
            sid
            fb
            fb_sz
            sent
            s
          ≡ some (tt, s'))
        × (written s'.world ≡ written s.world ++ ws)
        × (drop sent (take fb_sz (get_two s.ctx.frames.frame_buffer fb)) ≡ bytes_of ws ++ left)
        × Chunks sid ws
        × IsDone s' left
  unfolding payload_loop
  payload_loop_sends zero send_idx path sid fb_sz sent s safe h = absurd (omega arith)
  payload_loop_sends (suc n) send_idx path sid fb_sz sent s safe h =
      let s0 = others s in
      let buf = get_two s.ctx.frames.frame_buffer fb in
      let k = chunk_size fb_sz sent in
      let chunk = take k (drop sent (get_two s0.ctx.frames.frame_buffer fb)) in
      let (r, w, sent_ok, queued) =
        send_with_pacing_answers q written queues permits rounds path sid chunk false s0.world in
      let s1 : Server W = record s0 { world = w } in
      let s2 = with_algo (path_algo_on_sent s1.ctx.algo (pos send_idx) k) s1 in
      elim (Bool-cases (ltb sent fb_sz)) [
        | inr over ↦ (
          s0,
          [],
          [],
          ground (arith, over),
          quiet.queues_nothing s ∙ sym (append-nil (written s.world)),
          drop_all sent (take fb_sz buf) (ground (arith, length-take fb_sz buf, over)),
          tt,
          IsDone-or_off s0,
        )
        | inl under ↦ elim (Bool-cases s0.ctx.is_sending) [
          | inr off ↦ (
            s0,
            [],
            drop sent (take fb_sz buf),
            ground (arith, off),
            quiet.queues_nothing s ∙ sym (append-nil (written s.world)),
            refl,
            tt,
            inr off,
          )
          | inl on ↦ elim (Bool-cases (is_ok r)) [
            | inr bad ↦ (
              stop_sending s1,
              [],
              drop sent (take fb_sz buf),
              ground (arith, under, on, sent_ok, bad),
              ground (arith, queued, bad, quiet.queues_nothing s, append-nil (written s.world)),
              refl,
              tt,
              inr refl,
            )
            | inl ok ↦
                let (s', ws, left, e, e1, e2, e3, e4) =
                  payload_loop_sends n send_idx path sid fb_sz (sent + k) s2
                    (quiet.sends_safely s0 _ w (quiet.stays_safe s safe))
                    (rounds_left n fb_sz sent h (ltb→lt sent fb_sz under)) in
                let same = quiet.keeps_buffer s safe in
                (
                  s',
                  record { sid = sid; bytes = chunk; fin = false } ∷ ws,
                  left,
                  ground (arith, under, on, sent_ok, ok, e),
                  ground (
                    arith,
                    e1,
                    queued,
                    ok,
                    quiet.queues_nothing s,
                    append_assoc (written s.world)
                        (record { sid = sid; bytes = chunk; fin = false } ∷ []) ws,
                  ),
                  chunk_step fb_sz sent k buf _ (bytes_of ws) left same (ground arith) e2,
                  (
                    (
                      refl,
                      refl,
                      ground (
                        arith,
                        length-take k (drop sent (get_two s0.ctx.frames.frame_buffer fb)),
                      ),
                    ),
                    e3,
                  ),
                  e4,
                )
          ]
        ]
      ]

  -- Where pacing permits each write and the other threads and the callbacks leave the buffer that is
  -- sent as it is, sending a frame of its first `fb_sz` bytes comes to an end. Then either the length
  -- was refused: `is_sending` is cleared and nothing was queued. Or the length was queued as a
  -- variable-length integer and behind it, on the same stream and in chunks of at most 16 KiB, the
  -- bytes of the frame in order: all of them if `is_sending` is still set at the end, and a front
  -- part of them if it is not.
  pub send_frame_sends :
      (send_idx : ℕ) (path : Option QuicPath) (sid fb_sz : ℕ) (s : Server W)
      → Safe s
      → (s' : Server W) × (ws : List Write) × (left : List ℕ) × (((send_frame q
                (suc rounds)
                others
                send_idx
                path
                sid
                fb
                fb_sz
                s
              ≡ some (false, s'))
            × (s'.ctx.is_sending ≡ false)
            × (written s'.world ≡ written s.world))
          ⊎ ((send_frame q (suc rounds) others send_idx path sid fb fb_sz s ≡ some (true, s'))
              × (written s'.world
                  ≡ written s.world
                    ++ (record { sid = sid; bytes = quic_varint_encode fb_sz; fin = false } ∷ ws))
              × (take fb_sz (get_two s.ctx.frames.frame_buffer fb) ≡ bytes_of ws ++ left)
              × Chunks sid ws
              × (((s'.ctx.is_sending ≡ true) × (left ≡ [])) ⊎ (s'.ctx.is_sending ≡ false))))
  unfolding send_frame
  send_frame_sends send_idx path sid fb_sz s safe =
      let (r, w, sent, queued) =
        send_with_pacing_answers q written queues permits rounds path sid (quic_varint_encode fb_sz)
          false s.world in
      let s1 : Server W = record s { world = w } in
      let (s', ws, left, e, e1, e2, e3, e4) =
        payload_loop_sends (suc fb_sz) send_idx path sid fb_sz 0 s1
          (quiet.sends_safely s s.ctx.algo w safe) (omega arith) in
      elim (Bool-cases (is_ok r)) [
        | inr bad ↦ (
          stop_sending s1,
          [],
          [],
          inl (ground (arith, sent, bad), refl, ground (arith, queued, bad)),
        )
        | inl ok ↦ (
          s',
          ws,
          left,
          inr (
            ground (arith, sent, ok, e),
            ground (
              arith,
              e1,
              queued,
              ok,
              append_assoc (written s.world)
                  (record { sid = sid; bytes = quic_varint_encode fb_sz; fin = false } ∷ []) ws,
            ),
            e2,
            e3,
            e4,
          ),
        )
      ]
