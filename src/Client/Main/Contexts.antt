-- ===== src/Client/Main/Contexts.antt =====
-- Which calls of the client's `main`, client/client_main.c, change how many QUIC contexts there are.
use m_quic.Prelude.{ℕ, zero, suc, ◌+◌, ◌<◌, ◌≡◌, refl, ◌∙◌, arith, if◌then◌else◌, Bool, true, false}
use m_quic.Prelude.{
  ℤ, List, Option, none, some, is_ok, Bool-cases, Option-cases, inl, inr, ltb, ◌&&◌,
}
use m_quic.Quic.{Quic}
use m_quic.Client.Stream.{Host}
use m_quic.Client.Options.{CliOpts}
use m_quic.Client.Request.{h3zero_create_headers_frame, headers_frame, send_frame_on}
use m_quic.Client.Main.{
  Session, ClientQuic, client_cb, keeps_waiting, wait_handshake, main_loop, send_block,
  send_connect, after_handshake, run_session, authority, connect_text,
}

-- `contexts` is the number of contexts: `picoquic_create` adds one where it answers one, `picoquic_free`
-- takes one away, and no other call changes it.
pub record Counts {D W : Type 0} (decode : List ℕ → Option (ℕ × ℕ)) (encode : ℕ → ℕ → List ℕ)
    (host : Host D) (q : Quic W) (net : ClientQuic D W) (rounds : ℕ) (contexts : W → ℕ)
    : Type 0 where
  pub creates :
      (alpn : List ℕ) (w : W)
      → contexts (net.create alpn w).1 ≡ contexts w + (if (net.create alpn w).0 then 1 else 0)
  pub frees : (w : W) → 0 < contexts w → contexts (net.free w) + 1 ≡ contexts w
  pub make_dir_keeps : (name : List ℕ) (w : W) → contexts (net.make_dir name w) ≡ contexts w
  pub set_logs_keeps : (w : W) → contexts (net.set_logs w) ≡ contexts w
  pub verify_keeps : (w : W) → contexts (net.set_verify_certificate_callback w) ≡ contexts w
  pub address_keeps :
      (name : List ℕ) (port : ℤ) (w : W)
      → contexts (net.get_server_address name port w).1 ≡ contexts w
  pub create_cnx_keeps :
      (sni alpn : List ℕ) (w : W) → contexts (net.create_cnx sni alpn w).1 ≡ contexts w
  pub start_keeps : (w : W) → contexts (net.start_client_cnx w).1 ≡ contexts w
  pub packets_keep :
      (s s1 : Session D W) (ret : ℤ)
      → net.packet_loop (client_cb decode encode host q net rounds) s ≡ some (ret, s1)
      → contexts s1.world ≡ contexts s.world
  pub time_keeps : (w : W) → contexts (q.current_time w).1 ≡ contexts w
  pub callback_keeps : (w : W) → contexts (q.set_callback w) ≡ contexts w
  pub stream_keeps :
      (sid : ℕ) (bytes : List ℕ) (fin : Bool) (w : W)
      → contexts (q.add_to_stream sid bytes fin w).1 ≡ contexts w

module _ {D W : Type 0} (decode : List ℕ → Option (ℕ × ℕ)) (encode : ℕ → ℕ → List ℕ) (host : Host D)
    (q : Quic W) (net : ClientQuic D W) (rounds : ℕ) (contexts : W → ℕ)
    (counts : Counts decode encode host q net rounds contexts) where
  frame_on_keeps :
      (sid : ℕ) (frame : Option (List ℕ)) (fin : Bool) (w : W)
      → contexts (send_frame_on encode q sid frame fin w).1 ≡ contexts w
  frame_on_keeps sid none fin w = refl
  frame_on_keeps sid (some bytes) fin w = ground (arith, counts.stream_keeps sid bytes fin w)

  frame_keeps :
      (ctrl_id : ℕ) (block : List ℕ) (w : W)
      → contexts (h3zero_create_headers_frame encode q true ctrl_id (some block) false w).1
        ≡ contexts w
  unfolding h3zero_create_headers_frame
  frame_keeps ctrl_id block w =
      ground (arith, frame_on_keeps ctrl_id (headers_frame encode 1200 block) false w)

  block_keeps :
      (ctrl_id : ℕ) (block : Option (List ℕ)) (w : W)
      → contexts (send_block decode encode host q net ctrl_id block w).1 ≡ contexts w
  unfolding send_block
  block_keeps ctrl_id none w = refl
  block_keeps ctrl_id (some block) w = frame_keeps ctrl_id block w

  waits_keeps :
      (state start : ℕ) (w : W)
      → contexts (keeps_waiting decode encode host q net state start w).1 ≡ contexts w
  unfolding keeps_waiting
  waits_keeps state start w = ground (arith, counts.time_keeps w)

  wait_keeps :
      (n state start : ℕ) (s : Session D W) (r : ℕ × Session D W)
      → wait_handshake decode encode host q net n rounds state start s ≡ some r
      → contexts r.1.world ≡ contexts s.world
  unfolding wait_handshake
  wait_keeps zero state start s r e = cc
  wait_keeps (suc n) state start s r e =
      let kept = waits_keeps state start s.world in
      let w = (keeps_waiting decode encode host q net state start s.world).1 in
      let s1 : Session D W = record s { world = w } in
      elim (Bool-cases (keeps_waiting decode encode host q net state start s.world).0) [
        | inr over ↦ ground (arith, over, e, kept)
        | inl on ↦
            elim (Option-cases (net.packet_loop (client_cb decode encode host q net rounds) s1)) [
              | inl stuck ↦ absurd (ground (arith, on, stuck, e))
              | inr ((ret, s2), ran) ↦
                  wait_keeps n (q.cnx_state s2.world) start s2 r (ground (arith, on, ran, e))
                  ∙ counts.packets_keep s1 s2 ret ran
                  ∙ kept
            ]
      ]

  main_loop_keeps :
      (n : ℕ) (s s' : Session D W)
      → main_loop decode encode host q net n rounds s ≡ some s'
      → contexts s'.world ≡ contexts s.world
  unfolding main_loop
  main_loop_keeps zero s s' e = cc
  main_loop_keeps (suc n) s s' e =
      elim (Bool-cases (s.app.running && ltb (q.cnx_state s.world) q.state_disconnecting)) [
        | inr over ↦ ground (arith, over, e)
        | inl on ↦
            elim (Option-cases (net.packet_loop (client_cb decode encode host q net rounds) s)) [
              | inl stuck ↦ absurd (ground (arith, on, stuck, e))
              | inr ((ret, s1), ran) ↦ elim (Bool-cases (is_ok ret)) [
                | inr bad ↦ ground (arith, on, ran, bad, e, counts.packets_keep s s1 ret ran)
                | inl ok ↦
                    main_loop_keeps n s1 s' (ground (arith, on, ran, ok, e))
                    ∙ counts.packets_keep s s1 ret ran
              ]
            ]
      ]

  after_keeps :
      (n : ℕ) (sni_host : List ℕ) (opt : CliOpts) (r : ℕ × Session D W) (s' : Session D W)
      → after_handshake decode encode host q net n rounds sni_host opt r ≡ some s'
      → contexts s'.world ≡ contexts r.1.world
  unfolding after_handshake send_connect
  after_keeps n sni_host opt (state, s) s' e =
      let block = connect_text (authority sni_host opt.port) opt.path in
      let (sent, w) = send_connect decode encode host q net sni_host opt s.world in
      let kept = block_keeps (q.next_local_stream_id false s.world) block s.world in
      elim (Bool-cases (ltb state q.state_client_ready_start)) [
        | inl early ↦ ground (arith, early, e)
        | inr ready ↦ elim (Bool-cases sent) [
          | inr bad ↦ ground (arith, ready, bad, e, kept)
          | inl ok ↦
              main_loop_keeps n (record s { world = w }) s' (ground (arith, ready, ok, e)) ∙ kept
        ]
      ]

  -- From the start of the connection to its end no context comes or goes.
  pub run_session_keeps :
      (n : ℕ) (sni_host : List ℕ) (opt : CliOpts) (s s' : Session D W)
      → run_session decode encode host q net n rounds sni_host opt s ≡ some s'
      → contexts s'.world ≡ contexts s.world
  unfolding run_session
  run_session_keeps n sni_host opt s s' e =
      let (ret, w) = net.start_client_cnx s.world in
      let (t, w1) = q.current_time w in
      let s1 : Session D W = record s { world = w1 } in
      let begun : contexts w ≡ contexts s.world = counts.start_keeps s.world in
      elim (Bool-cases (is_ok ret)) [
        | inr bad ↦ ground (arith, bad, e, begun)
        | inl ok ↦
            elim (Option-cases
              (wait_handshake decode encode host q net n rounds (q.cnx_state w) t s1)) [
                | inl stuck ↦ absurd (ground (arith, ok, stuck, e))
                | inr (r, waited) ↦
                    after_keeps n sni_host opt r s' (ground (arith, ok, waited, e))
                    ∙ wait_keeps n (q.cnx_state w) t s1 r waited
                    ∙ counts.time_keeps w
                    ∙ begun
              ]
      ]
