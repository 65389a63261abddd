-- ===== src/Server/Bindings/Laws.antt =====
-- What a binding promises, and how all of them end.
use m_quic.Prelude.{
  ℕ, zero, suc, ◌+◌, ◌-◌, ◌<◌, ◌≤◌, ◌≡◌, ◌≢◌, refl, ◌∙◌, arith, ltb, ◌⊎◌, inl, inr,
}
use m_quic.Prelude.{Bool, true, false, pos, minus_one, is_ok, bit_and}
use m_quic.Prelude.{List, [], ◌∷◌, ◌++◌, length, set, take, some, if◌then◌else◌}
use m_quic.Prelude.{Bool-cases, if-true, length-append, sym, ap, append_assoc, append-nil}
use m_quic.PathAlgo.{path_at, is_verified}
use m_quic.Quic.{Quic}
use m_quic.Quic.Laws.{Write, Queues, Permits}
use m_quic.Server.{Server, Binding, max_paths}
use m_quic.Server.Pacing.Laws.{send_with_pacing_answers, send_with_pacing_accepted}
use m_quic.Server.Bindings.{binding, path_id, wt_header, open_stream}
use m_quic.Server.Bindings.{ensure_stream_for_path, finish_from, finish_all_bindings}

pub binding-set :
    (bs : List Binding) (i : ℕ) (b : Binding) → i < length bs → binding (set bs i b) i ≡ b
binding-set [] i b h = absurd (omega arith)
binding-set (x ∷ bs) zero b h = refl
binding-set (x ∷ bs) (suc i) b h = binding-set bs i b (omega arith)

pub binding-set_ne :
    (bs : List Binding) (i j : ℕ) (b : Binding) → i ≢ j → binding (set bs i b) j ≡ binding bs j
binding-set_ne [] i j b h = refl
binding-set_ne (x ∷ bs) zero zero b h = absurd (h refl)
binding-set_ne (x ∷ bs) zero (suc j) b h = refl
binding-set_ne (x ∷ bs) (suc i) zero b h = refl
binding-set_ne (x ∷ bs) (suc i) (suc j) b h = binding-set_ne bs i j b (λ e. h (ap suc e))

-- The header write of a path's stream.
abbrev pub header_write : ℕ → ℕ → Write
header_write sid control = record { sid = sid; bytes = wt_header control; fin = false }

-- What ending the bindings queues: a FIN without bytes on the stream of each ready one, in order.
abbrev pub fins : List Binding → List Write
fins [] = []
fins (b ∷ bs) =
    if b.ready then record { sid = b.sid; bytes = []; fin = true } ∷ fins bs else fins bs

binding_behind :
    (front bs : List Binding) (b : Binding) → binding (front ++ (b ∷ bs)) (length front) ≡ b
binding_behind [] bs b = refl
binding_behind (x ∷ front) bs b = binding_behind front bs b

take-nil : (n : ℕ) → take {A = Binding} n [] ≡ []
take-nil zero = refl
take-nil (suc n) = refl

take_more :
    (nb i : ℕ) (b : Binding) (bs : List Binding)
    → i < nb
    → take (nb - i) (b ∷ bs) ≡ b ∷ take (nb - (i + 1)) bs
take_more nb i b bs h = let e : nb - i ≡ suc (nb - (i + 1)) = omega arith in rw e

take_over : (nb i : ℕ) (bs : List Binding) → nb ≤ i → take (nb - i) bs ≡ []
take_over nb i bs h = let e : nb - i ≡ 0 = omega arith in rw e

module _ {W : Type 0} (q : Quic W) (written : W → List Write) (queues : Queues q written) where
  -- Where pacing permits each write when it is first asked, on a connection with a verified path at an
  -- index below 8 whose stream is not open yet, and a next stream id that is server-initiated and
  -- unidirectional, the call answers, and opens the stream or fails: it
  -- answers 0, the WebTransport header with the session's control stream has been queued on that
  -- stream and nothing else has, and the table binds the index to that stream and is otherwise as
  -- before; or it answers -1, nothing has been queued and the context is as before.
  pub ensure_stream_opens :
      (permits : Permits q) (n i : ℕ) (s : Server W)
      → s.ctx.has_cnx ≡ true
      → i < length (q.paths s.world)
      → i < max_paths
      → length s.ctx.bind ≡ max_paths
      → (binding s.ctx.bind i).ready ≡ false
      → is_verified (path_at (q.paths s.world) i) ≡ true
      → bit_and (q.next_local_stream_id true s.world) 0x3 ≡ 0x3
      → (w : W) × (((ensure_stream_for_path q (suc n) (pos i) s
              ≡ some (
                pos 0,
                record {
                  ctx = record s.ctx {
                    bind = set s.ctx.bind i (record {
                      path_idx = i;
                      sid = q.next_local_stream_id true s.world;
                      ready = true;
                    });
                  };
                  world = w;
                },
              ))
            × (written w
                ≡ written s.world
                  ++ (header_write (q.next_local_stream_id true s.world) s.ctx.control_stream_id
                      ∷ [])))
          ⊎ ((ensure_stream_for_path q (suc n) (pos i) s ≡ some (minus_one, record s { world = w }))
              × (written w ≡ written s.world)))
  unfolding ensure_stream_for_path open_stream
  ensure_stream_opens permits n i s cnx lt lt8 len new ver uni =
      let path = path_at (q.paths s.world) i in
      let sid = q.next_local_stream_id true s.world in
      let (r, w, e, queued) =
        send_with_pacing_answers q written queues permits n path sid
          (wt_header s.ctx.control_stream_id) false s.world in
      elim (Bool-cases (is_ok r)) [
        | inl ok ↦ (
          q.set_stream_path_affinity sid (path_id path) w,
          inl (
            ground (arith, e, ok),
            ground (arith, queues.affinity_queues_nothing sid (path_id path) w, queued, ok),
          ),
        )
        | inr bad ↦ (w, inr (ground (arith, e, bad), ground (arith, queued, bad)))
      ]

  module _ (permits : Permits q)
      (accepting : (sid : ℕ) (bytes : List ℕ) (fin : Bool) (w : W)
        → is_ok (q.add_to_stream sid bytes fin w).0 ≡ true)
      (nb : ℕ) (steady : (w : W) → length (q.paths w) ≡ nb) where
    finish_from-fins :
        (n : ℕ) (front bs : List Binding) (i : ℕ) (s : Server W)
        → length front ≡ i
        → s.ctx.bind ≡ front ++ bs
        → (w : W) × (finish_from q (suc n) (length bs) i s ≡ some (tt, record s { world = w }))
          × (written w ≡ written s.world ++ fins (take (nb - i) bs))
    unfolding finish_from
    finish_from-fins n front [] i s at e =
        (s.world, refl, rw (take-nil (nb - i)) (sym (append-nil (written s.world))))
    finish_from-fins n front (b ∷ bs) i s at e =
        let here : binding s.ctx.bind i ≡ b = rw (e, ← at) (binding_behind front bs b) in
        let path = path_at (q.paths s.world) (binding s.ctx.bind i).path_idx in
        let (r, w, sent, queued) =
          send_with_pacing_answers q written queues permits n path (binding s.ctx.bind i).sid []
            true s.world in
        let ok =
          send_with_pacing_accepted q written queues accepting (suc n) path
            (binding s.ctx.bind i).sid [] true s.world r w sent in
        let at' : length (front ++ (b ∷ [])) ≡ i + 1 =
          omega (arith, length-append front (b ∷ []), at) in
        let e' : s.ctx.bind ≡ (front ++ (b ∷ [])) ++ bs =
          e ∙ sym (append_assoc front (b ∷ []) bs) in
        let (w1, e1, q1) =
          finish_from-fins n (front ++ (b ∷ [])) bs (i + 1) (record s { world = w }) at' e' in
        let (w2, e2, q2) = finish_from-fins n (front ++ (b ∷ [])) bs (i + 1) s at' e' in
        elim (Bool-cases (ltb i nb)) [
          | inl more ↦ elim (Bool-cases b.ready) [
            | inl ready ↦ (
              w1,
              ground (arith, steady s.world, here, ready, more, sent, e1),
              ground (
                arith,
                q1,
                queued,
                ok,
                here,
                ready,
                more,
                take_more nb i b bs,
                append_assoc (written s.world) (record { sid = b.sid; bytes = []; fin = true } ∷ [])
                    (fins (take (nb - (i + 1)) bs)),
              ),
            )
            | inr skip ↦ (
              w2,
              ground (arith, steady s.world, here, skip, more, e2),
              ground (arith, q2, skip, more, take_more nb i b bs),
            )
          ]
          | inr over ↦ (
            s.world,
            ground (arith, steady s.world, over),
            ground (arith, over, take_over nb i (b ∷ bs), append-nil (written s.world)),
          )
        ]

    -- Where pacing permits each write when it is first asked, every write is accepted and there are
    -- `nb` paths throughout, ending the bindings of a connection answers and queues exactly one
    -- FIN, without bytes, on the stream of each ready binding among the first `nb` of the table,
    -- in order, and leaves the context as it was.
    pub finish_all_bindings-fins :
        (n : ℕ) (s : Server W)
        → s.ctx.has_cnx ≡ true
        → length s.ctx.bind ≡ max_paths
        → (w : W) × (finish_all_bindings q (suc n) s ≡ some (tt, record s { world = w }))
          × (written w ≡ written s.world ++ fins (take nb s.ctx.bind))
    unfolding finish_all_bindings
    finish_all_bindings-fins n s cnx len =
        let (w, e, queued) = finish_from-fins n [] s.ctx.bind 0 s refl refl in
        let z : nb - 0 ≡ nb = omega arith in (w, if-true _ _ cnx ∙ rw len at e, rw z at queued)
