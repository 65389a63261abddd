-- ===== src/Client/Main/Loops.antt =====
-- The two loops of the client's `main` end.
use m_quic.Prelude.{
  ℕ, zero, suc, ◌+◌, ◌%◌, ◌^◌, ◌≤◌, ◌<◌, ◌≡◌, ◌∙◌, arith, ltb, if◌then◌else◌, Bool, true, false,
  ◌&&◌, ◌⊎◌, inl, inr, ℤ, is_ok,
}
use m_quic.Prelude.{List, Option, some, Bool-cases}
use m_quic.Quic.{Quic}
use m_quic.Client.Stream.{Host}
use m_quic.Client.Main.{
  Session, ClientQuic, client_cb, keeps_waiting, wait_handshake, main_loop, wait_limit_us,
}

module _ {D W : Type 0} (decode : List ℕ → Option (ℕ × ℕ)) (encode : ℕ → ℕ → List ℕ) (host : Host D)
    (q : Quic W) (net : ClientQuic D W) (rounds : ℕ) where
  -- `clock` is the time in microseconds, which a reading shows in 64 bits. A reading and a call of
  -- the packet loop each take less than 2^62 of them, and the call takes at least one.
  pub record Ticks (clock : W → ℕ) : Type 0 where
    pub shows : (w : W) → (q.current_time w).0 ≡ clock w % 2 ^ 64
    pub reads : (w : W) → clock w ≤ clock (q.current_time w).1
    pub reads_soon : (w : W) → clock (q.current_time w).1 < clock w + 2 ^ 62
    pub later :
        (s : Session D W)
        → (ret : ℤ) × (s1 : Session D W) × (net.packet_loop
              (client_cb decode encode host q net rounds)
              s
            ≡ some (ret, s1))
          × (clock s.world < clock s1.world)
          × (clock s1.world < clock s.world + 2 ^ 62)

  -- Why the wait ends: a state that is not to wait in, or the time is up.
  abbrev pub Waited : (W → ℕ) → ℕ → ℕ × Session D W → Type 0
  Waited clock since (state, s) =
      (q.state_client_ready_start ≤ state)
      ⊎ (state ≡ q.state_disconnecting)
      ⊎ (state ≡ q.state_disconnected)
      ⊎ (since + wait_limit_us ≤ clock s.world)

  module _ (clock : W → ℕ) (ticks : Ticks clock) where
    abbrev stopped : ℕ → ℕ → Session D W → ℕ × Session D W
    stopped state start s =
        (state, record s { world = (keeps_waiting decode encode host q net state start s.world).1 })

    waits_cases :
        (since state start : ℕ) (s : Session D W)
        → start ≡ since % 2 ^ 64
        → since ≤ clock s.world
        → clock s.world < since + wait_limit_us + 2 ^ 63
        → ((keeps_waiting decode encode host q net state start s.world).0 ≡ false
            × Waited clock since (stopped state start s))
          ⊎ ((keeps_waiting decode encode host q net state start s.world
                ≡ (true, (q.current_time s.world).1))
              × (clock s.world < since + wait_limit_us))
    unfolding keeps_waiting
    waits_cases since state start s e h k = ground (arith, ticks.shows s.world, ticks.reads s.world)

    wait_handshake_over :
        (n state start : ℕ) (s : Session D W)
        → (keeps_waiting decode encode host q net state start s.world).0 ≡ false
        → wait_handshake decode encode host q net (suc n) rounds state start s
          ≡ some (stopped state start s)
    unfolding wait_handshake
    wait_handshake_over n state start s over = ground arith

    wait_handshake_step :
        (n state start : ℕ) (s s2 : Session D W) (ret : ℤ)
        → keeps_waiting decode encode host q net state start s.world
          ≡ (true, (q.current_time s.world).1)
        → net.packet_loop
            (client_cb decode encode host q net rounds)
            (record s { world = (q.current_time s.world).1 })
          ≡ some (ret, s2)
        → wait_handshake decode encode host q net (suc n) rounds state start s
          ≡ wait_handshake decode encode host q net n rounds (q.cnx_state s2.world) start s2
    unfolding wait_handshake
    wait_handshake_step n state start s s2 ret on ran = ground arith

    pub wait_handshake_ends :
        (n since state start : ℕ) (s : Session D W)
        → start ≡ since % 2 ^ 64
        → since ≤ clock s.world
        → clock s.world < since + wait_limit_us + 2 ^ 63
        → since + wait_limit_us ≤ clock s.world + n
        → (r : ℕ × Session D W) × (wait_handshake decode encode host q net
              (suc n)
              rounds
              state
              start
              s
            ≡ some r)
          × Waited clock since r
    wait_handshake_ends zero since state start s eq h lt k =
        elim (waits_cases since state start s eq h lt) [
          | inl (over, w) ↦ (stopped state start s, wait_handshake_over 0 state start s over, w)
          | inr (_, early) ↦ absurd (omega arith)
        ]
    wait_handshake_ends (suc n) since state start s eq h lt k =
        elim (waits_cases since state start s eq h lt) [
          | inl (over, w) ↦
              (stopped state start s, wait_handshake_over (suc n) state start s over, w)
          | inr (on, early) ↦
              let s1 : Session D W = record s { world = (q.current_time s.world).1 } in
              let (ret, s2, ran, later, soon) = ticks.later s1 in
              let (r, e, w) =
                wait_handshake_ends n since (q.cnx_state s2.world) start s2 eq
                  (omega (arith, ticks.reads s.world)) (omega (arith, ticks.reads_soon s.world))
                  (omega (arith, ticks.reads s.world)) in
              (r, wait_handshake_step (suc n) state start s s2 ret on ran ∙ e, w)
        ]

  -- Each call of the packet loop in a connection that runs uses up some of `left`.
  pub record Drains (left : Session D W → ℕ) : Type 0 where
    pub returns :
        (s : Session D W)
        → s.app.running && ltb (q.cnx_state s.world) q.state_disconnecting ≡ true
        → (ret : ℤ) × (s1 : Session D W) × (net.packet_loop
              (client_cb decode encode host q net rounds)
              s
            ≡ some (ret, s1))
          × ((is_ok ret ≡ false) ⊎ (left s1 < left s))

  -- Why the loop ends: it is told to, the connection closes, or the packet loop has failed.
  abbrev pub Left : Session D W → Type 0
  Left s =
      (s.app.running ≡ false)
      ⊎ (q.state_disconnecting ≤ q.cnx_state s.world)
      ⊎ ((s0 : Session D W) × (ret : ℤ) × (net.packet_loop
              (client_cb decode encode host q net rounds) s0
            ≡ some (ret, s))
          × (is_ok ret ≡ false))

  abbrev runs : Session D W → Bool
  runs s = s.app.running && ltb (q.cnx_state s.world) q.state_disconnecting

  main_loop_step :
      (n : ℕ) (s s1 : Session D W) (ret : ℤ)
      → runs s ≡ true
      → net.packet_loop (client_cb decode encode host q net rounds) s ≡ some (ret, s1)
      → main_loop decode encode host q net (suc n) rounds s
        ≡ (if is_ok ret then main_loop decode encode host q net n rounds s1 else some s1)
  unfolding main_loop
  main_loop_step n s s1 ret on ran = ground arith

  main_loop_over :
      (n : ℕ) (s : Session D W)
      → runs s ≡ false
      → main_loop decode encode host q net (suc n) rounds s ≡ some s
  unfolding main_loop
  main_loop_over n s off = ground arith

  pub main_loop_ends :
      (left : Session D W → ℕ) (drains : Drains left) (n : ℕ) (s : Session D W)
      → left s ≤ n
      → (s' : Session D W) × (main_loop decode encode host q net (suc n) rounds s ≡ some s')
        × Left s'
  main_loop_ends left drains zero s h = elim (Bool-cases (runs s)) [
    | inr off ↦ (s, main_loop_over 0 s off, ground arith)
    | inl on ↦
        let (ret, s1, ran, less) = drains.returns s on in
        elim (Bool-cases (is_ok ret)) [
          | inl ok ↦ absurd (ground arith)
          | inr bad ↦ (s1, main_loop_step 0 s s1 ret on ran ∙ rw bad, inr (inr (s, ret, ran, bad)))
        ]
  ]
  main_loop_ends left drains (suc n) s h = elim (Bool-cases (runs s)) [
    | inr off ↦ (s, main_loop_over (suc n) s off, ground arith)
    | inl on ↦
        let (ret, s1, ran, less) = drains.returns s on in
        elim (Bool-cases (is_ok ret)) [
          | inl ok ↦
              let (s', e, l) = main_loop_ends left drains n s1 (ground arith) in
              (s', main_loop_step (suc n) s s1 ret on ran ∙ rw ok e, l)
          | inr bad ↦
              (s1, main_loop_step (suc n) s s1 ret on ran ∙ rw bad, inr (inr (s, ret, ran, bad)))
        ]
  ]
