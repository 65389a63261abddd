-- ===== src/Client/Control/Laws.antt =====
-- What a control message puts on its stream.
use m_quic.Prelude.{
  ℕ, suc, ◌≡◌, ◌∙◌, ap, arith, ltb, ◌==◌, if◌then◌else◌, true, false, ◌⊎◌, inl, inr, ℤ, pos,
  minus_one, is_ok, bit_and,
}
use m_quic.Prelude.{List, [], ◌∷◌, ◌++◌, length, take, Bool-cases, append_assoc, append-nil}
use m_quic.Varint.{wt_varint_encode}
use m_quic.Quic.{Quic}
use m_quic.Quic.Laws.{Write, Queues}
use m_quic.Client.Control.{send_code, send_wt_control}

-- The code, and the payload if there is one; the last of the two ends the stream.
abbrev pub code_writes : ℕ → ℕ → List ℕ → List Write
code_writes sid code payload =
    record { sid = sid; bytes = code ∷ []; fin = length payload == 0 }
    ∷ (if ltb 0 (length payload)
        then record { sid = sid; bytes = payload; fin = true } ∷ []
        else [])

abbrev pub control_writes : ℕ → ℕ → ℕ → List ℕ → List Write
control_writes sid session_id code payload =
    record { sid = sid; bytes = wt_varint_encode 0x54 ++ wt_varint_encode session_id; fin = false }
    ∷ code_writes sid code payload

module _ {W : Type 0} (q : Quic W) (written : W → List Write) (queues : Queues q written) where
  -- What was queued is all of it with the answer 0, and a front part with the answer -1.
  abbrev Sent : List Write → List Write → ℤ → W → Type 0
  Sent before all r w =
      ((r ≡ pos 0) × (written w ≡ before ++ all))
      ⊎ ((r ≡ minus_one) × (k : ℕ) × (written w ≡ before ++ take k all))

  send_code-Sent :
      (sid code : ℕ) (payload : List ℕ) (w : W)
      → Sent
          (written w)
          (code_writes sid code payload)
          (send_code q sid code payload w).0
          (send_code q sid code payload w).1
  unfolding send_code
  send_code-Sent sid code payload w =
      let fin = length payload == 0 in
      let (r1, w1) = q.add_to_stream sid (code ∷ []) fin w in
      let (r2, w2) = q.add_to_stream sid payload true w1 in
      elim (Bool-cases (is_ok r1)) [
        | inr bad ↦ inr (
          ground (arith, bad),
          0,
          ground (arith, bad, queues.refuses sid (code ∷ []) fin w, append-nil (written w)),
        )
        | inl ok ↦ elim (Bool-cases (ltb 0 (length payload))) [
          | inr empty ↦ inl (
            ground (arith, ok, empty),
            ground (arith, ok, empty, queues.accepts sid (code ∷ []) fin w),
          )
          | inl more ↦ elim (Bool-cases (is_ok r2)) [
            | inl ok2 ↦ inl (
              ground (arith, ok, more, ok2),
              ground (
                arith,
                ok,
                more,
                ok2,
                queues.accepts sid (code ∷ []) fin w,
                queues.accepts sid payload true w1,
                append_assoc (written w) (record { sid = sid; bytes = code ∷ []; fin = fin } ∷ [])
                    (record { sid = sid; bytes = payload; fin = true } ∷ []),
              ),
            )
            | inr bad2 ↦ inr (
              ground (arith, ok, more, bad2),
              1,
              ground (
                arith,
                ok,
                more,
                bad2,
                queues.accepts sid (code ∷ []) fin w,
                queues.refuses sid payload true w1,
              ),
            )
          ]
        ]
      ]

  -- A control message that answers 0 has opened a client-initiated unidirectional stream and queued on
  -- it the WebTransport header, the code and the payload, if there is one, and the last of these
  -- ends the stream. With any other answer, which is -1, a front part of these writes is queued.
  pub send_wt_control-queues :
      (session_id code : ℕ) (payload : List ℕ) (w : W)
      → let sid = q.next_local_stream_id true w in
        let all = control_writes sid session_id code payload in
        let (r, w') = send_wt_control q session_id code payload w in
        ((r ≡ pos 0) × (bit_and sid 0x3 ≡ 0x2) × (written w' ≡ written w ++ all))
        ⊎ ((r ≡ minus_one) × (k : ℕ) × (written w' ≡ written w ++ take k all))
  unfolding send_wt_control
  send_wt_control-queues session_id code payload w =
      let sid = q.next_local_stream_id true w in
      let hdr = wt_varint_encode 0x54 ++ wt_varint_encode session_id in
      let (r, w1) = q.add_to_stream sid hdr false w in
      elim (Bool-cases (bit_and sid 0x3 == 0x2)) [
        | inr odd ↦ inr (ground (arith, odd), 0, ground (arith, odd, append-nil (written w)))
        | inl uni ↦ elim (Bool-cases (is_ok r)) [
          | inr bad ↦ inr (
            ground (arith, uni, bad),
            0,
            ground (arith, uni, bad, queues.refuses sid hdr false w, append-nil (written w)),
          )
          | inl ok ↦
              let queued = queues.accepts sid hdr false w ok in
              rw (uni, ok)
                (elim (send_code-Sent sid code payload w1) [
                  | inl (r0, e) ↦
                      inl (r0, ground (arith, uni), behind (written w) (written w1) _ _ _ queued e)
                  | inr (r0, k, e) ↦ inr (r0, suc k, behind (written w) (written w1) _ _ _ queued e)
                ])
        ]
      ]
    where
      behind :
          (before mid all rest : List Write) (x : Write)
          → mid ≡ before ++ (x ∷ [])
          → all ≡ mid ++ rest
          → all ≡ before ++ (x ∷ rest)
      behind before mid all rest x e1 e2 =
          e2 ∙ ap (λ (l : List Write). l ++ rest) e1 ∙ append_assoc before (x ∷ []) rest
