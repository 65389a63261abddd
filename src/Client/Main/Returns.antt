-- ===== src/Client/Main/Returns.antt =====
-- The client's `main` comes to an end, and frees the QUIC context that it created.
use m_quic.Prelude.{ℕ, suc, ◌≤◌, ◌≡◌, refl, arith, ltb, if◌then◌else◌, ◌⊎◌, inl, inr, pos, is_ok}
use m_quic.Prelude.{List, Option, some, Bool-cases, Option-cases}
use m_quic.Prelude.Text.{codes}
use m_quic.Quic.{Quic}
use m_quic.Client.Stream.{Host}
use m_quic.Client.Options.{CliOpt, CliOpts, parse_cli}
use m_quic.Client.Main.{
  Session, ClientQuic, Exit, send_connect, after_handshake, run_session, cleanup, exit_early,
  with_context, start, main, or_host, fresh_app, wait_limit_us,
}
use m_quic.Prelude.{◌+◌, ◌∙◌}
use m_quic.Client.Main.Contexts.{Counts, run_session_keeps}
use m_quic.Client.Main.Loops.{Ticks, Drains, wait_handshake_ends, main_loop_ends}

module _ {D W : Type 0} (decode : List ℕ → Option (ℕ × ℕ)) (encode : ℕ → ℕ → List ℕ) (host : Host D)
    (q : Quic W) (net : ClientQuic D W) (rounds : ℕ) (clock : W → ℕ)
    (ticks : Ticks decode encode host q net rounds clock) (left : Session D W → ℕ)
    (drains : Drains decode encode host q net rounds left) (n : ℕ)
    (few : (s : Session D W) → left s ≤ n) (patience : wait_limit_us ≤ n) where
  after_handshake_returns :
      (sni_host : List ℕ) (opt : CliOpts) (r : ℕ × Session D W)
      → (s' : Session D W) × (after_handshake decode encode host q net (suc n) rounds sni_host opt r
          ≡ some s')
  unfolding after_handshake
  after_handshake_returns sni_host opt (state, s) =
      let (sent, w) = send_connect decode encode host q net sni_host opt s.world in
      let s1 : Session D W = record s { world = w } in
      let (s2, e, why) = main_loop_ends decode encode host q net rounds left drains n s1 (few s1) in
      elim (Bool-cases (ltb state q.state_client_ready_start)) [
        | inl early ↦ (s, rw early)
        | inr ready ↦ elim (Bool-cases sent) [
          | inl ok ↦ (s2, ground (arith, ready, ok, e))
          | inr bad ↦ (s1, ground (arith, ready, bad))
        ]
      ]

  run_session_returns :
      (sni_host : List ℕ) (opt : CliOpts) (s : Session D W)
      → (s' : Session D W) × (run_session decode encode host q net (suc n) rounds sni_host opt s
          ≡ some s')
  unfolding run_session
  run_session_returns sni_host opt s =
      let (ret, w) = net.start_client_cnx s.world in
      let (t, w1) = q.current_time w in
      let (r, waited, why) =
        wait_handshake_ends decode encode host q net rounds clock ticks n (clock w) (q.cnx_state w)
          t (record s { world = w1 }) (ticks.shows w) (ticks.reads w)
          (omega (arith, ticks.reads_soon w)) (omega (arith, ticks.reads w)) in
      let (s2, e) = after_handshake_returns sni_host opt r in
      elim (Bool-cases (is_ok ret)) [
        | inl ok ↦ (s2, ground (arith, ok, waited, e))
        | inr bad ↦ (record s { world = w }, ground (arith, bad))
      ]

  module _ (contexts : W → ℕ) (counts : Counts decode encode host q net rounds contexts) where
    -- The program ends with code 0 or 1, and as many contexts exist as `k`.
    abbrev pub Released : ℕ → Exit D W → Type 0
    Released k e = ((e.code ≡ pos 0) ⊎ (e.code ≡ pos 1)) × (contexts e.session.world ≡ k)

    freed : (w : W) (k : ℕ) → contexts w ≡ k + 1 → contexts (net.free w) ≡ k
    freed w k h = omega (arith, counts.frees w (omega (arith, h)), h)

    connect_returns :
        (opt : CliOpts) (s : Session D W) (k : ℕ)
        → contexts s.world ≡ k + 1
        → (e : Exit D W) × (with_context decode encode host q net (suc n) rounds opt s ≡ some e)
          × Released k e
    unfolding with_context cleanup
    connect_returns opt s k one_more =
        let sni_host = or_host opt.sni opt in
        let (ret, w) = net.get_server_address (or_host opt.addr opt) opt.port s.world in
        let (now, w1) = q.current_time w in
        let (made, w2) = net.create_cnx sni_host opt.alpn w1 in
        let s2 : Session D W = record {
          app = fresh_app opt s.app.disk;
          world = q.set_callback w2;
        } in
        let (s3, e) = run_session_returns sni_host opt s2 in
        let k0 : contexts w ≡ k + 1 =
          counts.address_keeps (or_host opt.addr opt) opt.port s.world ∙ one_more in
        let k2 : contexts w2 ≡ k + 1 =
          counts.create_cnx_keeps sni_host opt.alpn w1 ∙ counts.time_keeps w ∙ k0 in
        let k3 : contexts s3.world ≡ k + 1 =
          run_session_keeps decode encode host q net rounds contexts counts (suc n) sni_host opt s2
            s3 e
          ∙ counts.callback_keeps w2
          ∙ k2 in
        elim (Bool-cases (is_ok ret)) [
          | inr bad ↦ (
            exit_early decode encode host q net s (net.free w),
            ground (arith, bad),
            (inr refl, freed w k k0),
          )
          | inl ok ↦ elim (Bool-cases made) [
            | inr bad ↦ (
              exit_early decode encode host q net s (net.free w2),
              ground (arith, ok, bad),
              (inr refl, freed w2 k k2),
            )
            | inl good ↦ (
              cleanup decode encode host q net s3,
              ground (arith, ok, good, e),
              (inl refl, freed s3.world k k3),
            )
          ]
        ]

    start_returns :
        (opt : CliOpts) (s : Session D W)
        → (e : Exit D W) × (start decode encode host q net (suc n) rounds opt s ≡ some e)
          × Released (contexts s.world) e
    unfolding start
    start_returns opt s =
        let d1 = net.make_dir opt.out_dir s.world in
        let d2 = net.make_dir (codes "binlog") d1 in
        let dirs = net.make_dir (codes "qlogs") d2 in
        let (now, w) = q.current_time dirs in
        let (made, w1) = net.create opt.alpn w in
        let w2 = net.set_logs w1 in
        let w3 = if opt.no_verify then net.set_verify_certificate_callback w2 else w2 in
        let k : contexts w ≡ contexts s.world =
          counts.time_keeps dirs
          ∙ counts.make_dir_keeps (codes "qlogs") d2
          ∙ counts.make_dir_keeps (codes "binlog") d1
          ∙ counts.make_dir_keeps opt.out_dir s.world in
        let logged : contexts w3 ≡ contexts w1 =
          ground (arith, counts.verify_keeps w2, counts.set_logs_keeps w1) in
        elim (Bool-cases made) [
          | inl ok ↦
              let (e, connected, released) =
                connect_returns opt (record s { world = w3 }) (contexts s.world)
                  (ground (arith, logged, counts.creates opt.alpn w, ok, k)) in
              (e, rw ok connected, released)
          | inr bad ↦ (
            exit_early decode encode host q net s w1,
            rw bad,
            (inr refl, ground (arith, counts.creates opt.alpn w, bad, k)),
          )
        ]

    -- If each call of the packet loop returns, with the clock moved on, and the connection does not go
    -- on for ever, the program ends, with code 0 or 1. If only `picoquic_create` makes contexts, one
    -- at most by each call, and `picoquic_free` takes one away, then on every way out as many contexts
    -- exist as before the program began.
    pub main_returns :
        (args : List CliOpt) (s : Session D W)
        → (e : Exit D W) × (main decode encode host q net (suc n) rounds args s ≡ some e)
          × Released (contexts s.world) e
    unfolding main
    main_returns args s = elim (Option-cases (parse_cli args)) [
      | inl bad ↦
          (exit_early decode encode host q net s s.world, ground (arith, bad), (inr refl, refl))
      | inr (opt, ok) ↦
          let (e, started, released) = start_returns opt s in
          (e, ground (arith, ok, started), released)
    ]
