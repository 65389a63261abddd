-- ===== src/Server/Pacing/Laws.antt =====
-- The wait ends, and a paced send queues its bytes exactly when it answers 0.
use m_quic.Prelude.{ℕ, zero, suc, ◌-◌, ◌%◌, ◌^◌, ◌≤◌, ◌≡◌, refl, ◌∙◌, arith, inl, inr}
use m_quic.Prelude.{Bool, true, false, ℤ, is_ok, List, [], ◌∷◌, ◌++◌, length, Option, none, some}
use m_quic.Prelude.{if◌then◌else◌, Bool-cases, ltb}
use m_quic.Prelude.Effect.{continue-some}
use m_quic.PathAlgo.{QuicPath}
use m_quic.Quic.{Quic}
use m_quic.Quic.Laws.{Write, Queues, Permits, Refuses}
use m_quic.Server.Pacing.{pacing_loop, wait_for_pacing, after_send, send_with_pacing}

module _ {W : Type 0} (q : Quic W) where
  pacing_loop_go :
      (n : ℕ) (path : Option QuicPath) (now next : ℕ) (w : W)
      → (q.is_sending_authorized path now next w).0 ≡ true
      → pacing_loop q (suc n) path now next w
        ≡ some (tt, (q.is_sending_authorized path now next w).2)
  unfolding pacing_loop
  pacing_loop_go n path now next w h = rw h

  -- One round is enough for the wait.
  wait_for_pacing_ends :
      Permits q
      → (n : ℕ) (path : Option QuicPath) (w : W)
      → (w' : W) × (wait_for_pacing q (suc n) path w ≡ some (tt, w'))
  unfolding wait_for_pacing
  wait_for_pacing_ends permits n path w =
      let (now, w0) = q.current_time w in
      (_, pacing_loop_go n path now now w0 (permits.authorises path now w0))

  pacing_loop_spins :
      (empty : Option QuicPath → ℕ → W → Type 0)
      → Refuses q empty
      → (n : ℕ) (path : Option QuicPath) (now next : ℕ) (w : W) → next ≤ now
      → empty path now w
      → pacing_loop q n path now next w ≡ none
  unfolding pacing_loop
  pacing_loop_spins empty refusing zero path now next w h e = refl
  pacing_loop_spins empty refusing (suc n) path now next w h e =
      let (authorized, next', w1) = q.is_sending_authorized path now next w in
      let low = refusing.lowers path now next w in
      let not_later : ltb now next' ≡ false = ground (arith, low) in
      let spun =
        pacing_loop_spins empty refusing n path now next' w1 (omega (arith, low))
          (refusing.stays_empty path now next w e) in
      rw (refusing.refuses path now next w e, not_later) spun

  after_send_answers :
      (path : Option QuicPath) (len : ℕ) (ok : Bool) (w : W)
      → (w' : W) × (after_send q path len ok w ≡ some (tt, w'))
  after_send_answers path len true w = (_, refl)
  after_send_answers path len false w = (_, refl)

module _ {W : Type 0} (q : Quic W) (written : W → List Write) (queues : Queues q written) where
  pacing_loop_queues_nothing :
      (n : ℕ) (path : Option QuicPath) (now next : ℕ) (w w' : W)
      → pacing_loop q n path now next w ≡ some (tt, w')
      → written w' ≡ written w
  unfolding pacing_loop
  pacing_loop_queues_nothing zero path now next w w' e = cc
  pacing_loop_queues_nothing (suc n) path now next w w' e =
      let next' = (q.is_sending_authorized path now next w).1 in
      let w1 = (q.is_sending_authorized path now next w).2 in
      let slept = q.usleep ((next' - now) % 2 ^ 32) w1 in
      ground (
        arith,
        queues.pacing_queues_nothing path now next w,
        queues.sleep_queues_nothing ((next' - now) % 2 ^ 32) w1,
        queues.time_queues_nothing slept,
        pacing_loop_queues_nothing n path (q.current_time slept).0 next' (q.current_time slept).1
            w',
        pacing_loop_queues_nothing n path now next' w1 w',
      )

  after_send_queues_nothing :
      (path : Option QuicPath) (len : ℕ) (ok : Bool) (w w' : W)
      → after_send q path len ok w ≡ some (tt, w')
      → written w' ≡ written w
  after_send_queues_nothing path len true w w' e = ground (
    arith,
    queues.time_queues_nothing w,
    queues.update_queues_nothing path len (q.current_time w).0 (q.current_time w).1,
  )
  after_send_queues_nothing path len false w w' e = ground arith

  -- The last part of a paced send, once the stream has answered.
  finish_send :
      (path : Option QuicPath) (sid : ℕ) (buf : List ℕ) (fin : Bool) (w : W) (r : ℤ) (w' : W)
      → ((w'' : W) × (after_send q path
              (length buf)
              (is_ok (q.add_to_stream sid buf fin w).0)
              (q.add_to_stream sid buf fin w).1
            ≡ some (tt, w''))
          × ((q.add_to_stream sid buf fin w).0 ≡ r)
          × (w'' ≡ w'))
      → written w' ≡ (
          if is_ok r
          then written w ++ (record { sid = sid; bytes = buf; fin = fin } ∷ [])
          else written w)
  finish_send path sid buf fin w r w' (w'', e, er, ew) =
      let w1 = (q.add_to_stream sid buf fin w).1 in
      let quiet =
        after_send_queues_nothing path (length buf) (is_ok (q.add_to_stream sid buf fin w).0) w1 w''
          e in
      elim (Bool-cases (is_ok (q.add_to_stream sid buf fin w).0)) [
        | inl ok ↦ rw (← er, ok, ← ew) (quiet ∙ queues.accepts sid buf fin w ok)
        | inr bad ↦ rw (← er, bad, ← ew) (quiet ∙ queues.refuses sid buf fin w bad)
      ]

  send_parts :
      (rounds : ℕ) (path : Option QuicPath) (sid : ℕ) (buf : List ℕ) (fin : Bool) (w : W) (r : ℤ)
      (w' : W)
      → send_with_pacing q rounds path sid buf fin w ≡ some (r, w')
      → (w0 : W) × (wait_for_pacing q rounds path w ≡ some (tt, w0))
        × ((w'' : W) × (after_send q path
                (length buf)
                (is_ok (q.add_to_stream sid buf fin w0).0)
                (q.add_to_stream sid buf fin w0).1
              ≡ some (tt, w''))
            × ((q.add_to_stream sid buf fin w0).0 ≡ r)
            × (w'' ≡ w'))
  unfolding send_with_pacing
  send_parts rounds path sid buf fin w r w' e =
      let (_, w0, waited, rest) = continue-some (wait_for_pacing q rounds path w) _ e in
      let (_, w'', after, ending) =
        continue-some
          (after_send q path (length buf) (is_ok (q.add_to_stream sid buf fin w0).0)
            (q.add_to_stream sid buf fin w0).1)
          _ rest in
      (w0, waited, (w'', after, ground arith, ground arith))

  -- A paced send that answers has queued its bytes behind everything else if it answers 0, and
  -- has queued nothing if it answers anything else.
  send_with_pacing_queues :
      (rounds : ℕ) (path : Option QuicPath) (sid : ℕ) (buf : List ℕ) (fin : Bool) (w : W) (r : ℤ)
      (w' : W)
      → send_with_pacing q rounds path sid buf fin w ≡ some (r, w')
      → written w' ≡ (
          if is_ok r
          then written w ++ (record { sid = sid; bytes = buf; fin = fin } ∷ [])
          else written w)
  unfolding wait_for_pacing
  send_with_pacing_queues rounds path sid buf fin w r w' e =
      let (w0, waited, parts) = send_parts rounds path sid buf fin w r w' e in
      let quiet =
        pacing_loop_queues_nothing rounds path (q.current_time w).0 (q.current_time w).0
          (q.current_time w).1 w0 waited
        ∙ queues.time_queues_nothing w in
      rw (← quiet) (finish_send path sid buf fin w0 r w' parts)

  -- Where pacing permits it a paced send answers, and its bytes are then queued behind
  -- everything else if it answers 0, and nothing is queued if it answers anything else.
  pub send_with_pacing_answers :
      (permits : Permits q) (n : ℕ) (path : Option QuicPath) (sid : ℕ) (buf : List ℕ) (fin : Bool)
      (w : W)
      → (r : ℤ) × (w' : W) × (send_with_pacing q (suc n) path sid buf fin w ≡ some (r, w'))
        × (written w' ≡ (
            if is_ok r
            then written w ++ (record { sid = sid; bytes = buf; fin = fin } ∷ [])
            else written w))
  unfolding send_with_pacing
  send_with_pacing_answers permits n path sid buf fin w =
      let (w0, waited) = wait_for_pacing_ends q permits n path w in
      let r = (q.add_to_stream sid buf fin w0).0 in
      let w1 = (q.add_to_stream sid buf fin w0).1 in
      let (w2, after) = after_send_answers q path (length buf) (is_ok r) w1 in
      let e : send_with_pacing q (suc n) path sid buf fin w ≡ some (r, w2) = rw (waited, after) in
      (r, w2, e, send_with_pacing_queues (suc n) path sid buf fin w r w2 e)

  -- Where every stream accepts what it is given, a paced send answers 0.
  pub send_with_pacing_accepted :
      ((sid : ℕ) (bytes : List ℕ) (fin : Bool) (w : W)
        → is_ok (q.add_to_stream sid bytes fin w).0 ≡ true)
      → (rounds : ℕ) (path : Option QuicPath) (sid : ℕ) (buf : List ℕ) (fin : Bool) (w : W) (r : ℤ)
        (w' : W)
      → send_with_pacing q rounds path sid buf fin w ≡ some (r, w')
      → is_ok r ≡ true
  send_with_pacing_accepted accepting rounds path sid buf fin w r w' e =
      let (w0, _, (w'', _, er, _)) = send_parts rounds path sid buf fin w r w' e in
      rw (← er) (accepting sid buf fin w0)

-- Where pacing permits it a paced send answers.
pub send_with_pacing_ends :
    {W : Type 0} (q : Quic W) (permits : Permits q) (n : ℕ) (path : Option QuicPath) (sid : ℕ)
    (buf : List ℕ) (fin : Bool) (w : W)
    → (r : ℤ) × (w' : W) × (send_with_pacing q (suc n) path sid buf fin w ≡ some (r, w'))
unfolding send_with_pacing
send_with_pacing_ends q permits n path sid buf fin w =
    let (w0, waited) = wait_for_pacing_ends q permits n path w in
    let r = (q.add_to_stream sid buf fin w0).0 in
    let (w2, after) =
      after_send_answers q path (length buf) (is_ok r) (q.add_to_stream sid buf fin w0).1 in
    (r, w2, rw (waited, after))

-- If pacing refuses a path at the time that is read first, goes on refusing it at that time and, as
-- picoquic documents, never raises the next time, a paced send never returns: the clock is not read
-- again, and no number of rounds is enough.
pub send_with_pacing_spins :
    {W : Type 0} (q : Quic W) (empty : Option QuicPath → ℕ → W → Type 0)
    (refusing : Refuses q empty) (rounds : ℕ) (path : Option QuicPath) (sid : ℕ) (buf : List ℕ)
    (fin : Bool) (w : W)
    → empty path (q.current_time w).0 (q.current_time w).1
    → send_with_pacing q rounds path sid buf fin w ≡ none
unfolding send_with_pacing wait_for_pacing
send_with_pacing_spins q empty refusing rounds path sid buf fin w e =
    rw
      (pacing_loop_spins q empty refusing rounds path (q.current_time w).0 (q.current_time w).0
        (q.current_time w).1 (omega arith) e)
      refl
