-- ===== src/Client/Main.antt =====
-- `main` of client/client_main.c: the handshake, the CONNECT request, the loop that receives, and
-- the ways out. picoquic runs the callback `client_cb` inside its packet loop, so the loop is a
-- parameter that is given the callback.
pub mod Laws
pub mod Loops
pub mod Contexts
pub mod Returns
mod Runs
use m_quic.Prelude.{
  ℕ, zero, suc, ◌+◌, ◌-◌, ◌%◌, ◌^◌, ltb, leb, ◌==◌, if◌then◌else◌, Bool, true, false, not, ◌&&◌,
  ◌||◌, ℤ, pos, negsuc, is_ok,
}
use m_quic.Prelude.{List, [], ◌∷◌, ◌++◌, length, take, Option, none, some}
use m_quic.Prelude.Text.{codes, decimal}
use m_quic.Quic.{Quic}
use m_quic.Client.Stream.{Host}
use m_quic.Client.Request.{h3zero_create_headers_frame}
use m_quic.Client.Receive.{Receiver, Event, receive_event}
use m_quic.Client.Options.{CliOpt, CliOpts, parse_cli}

-- The frames and the connection.
pub record Session (D W : Type 0) : Type 0 where
  pub app : Receiver D
  pub world : W

-- The callback that picoquic is given, which is `none` if it never returns.
abbrev pub Callback : Type 0 → Type 0 → Type 0
Callback D W = Event → List ℕ → Session D W → Option (Session D W)

-- What only the client calls. `packet_loop` is `picoquic_packet_loop_v2` without a hook.
pub record ClientQuic (D W : Type 0) : Type 0 where
  pub make_dir : List ℕ → W → W
  pub create : List ℕ → W → Bool × W
  pub set_logs : W → W
  pub set_verify_certificate_callback : W → W
  pub get_server_address : List ℕ → ℤ → W → ℤ × W
  pub create_cnx : List ℕ → List ℕ → W → Bool × W
  pub start_client_cnx : W → ℤ × W
  pub packet_loop : Callback D W → Session D W → Option (ℤ × Session D W)
  pub free : W → W

-- The end of the program: its exit code and what it leaves.
pub record Exit (D W : Type 0) : Type 0 where
  pub code : ℤ
  pub session : Session D W

-- `snprintf(authority, 256, "%s:%d", ...)`
unfoldable pub authority : List ℕ → ℤ → List ℕ
authority sni_host port = take 255 (sni_host ++ (58 ∷ decimal port))

-- The header block, or `none` where it does not fit into 512 bytes with its final zero.
unfoldable pub connect_text : List ℕ → List ℕ → Option (List ℕ)
connect_text auth path =
    let text =
      codes ":method: CONNECT\r\n:scheme: https\r\n:authority: "
      ++ (auth ++ (codes "\r\n:path: " ++ (path ++ codes "\r\n:protocol: webtransport\r\n"))) in
    if length text == 0 || leb 512 (length text) then none else some text

-- `app_ctx_t app = {0}` with the options put in. `g_running` starts at 1. A negative limit on the
-- frames is, like 0, none.
abbrev pub limit_of : ℤ → ℕ
limit_of (pos n) = n
limit_of (negsuc n) = 0

unfoldable pub fresh_app : {D : Type 0} → CliOpts → D → Receiver D
fresh_app opt disk = record {
  max_frames = limit_of opt.max_frames;
  frame_count = 0;
  has_out_dir = ltb 0 (length opt.out_dir);
  has_buffer = false;
  buffer_size = 0;
  frame_size = 0;
  received = [];
  running = true;
  closed = false;
  files = [];
  disk = disk;
}

-- `opt.addr ? opt.addr : opt.host`, and the same for `sni`
abbrev pub or_host : Option (List ℕ) → CliOpts → List ℕ
or_host (some given) opt = given
or_host none opt = elim opt.host [ none ↦ [] | some host ↦ host ]

abbrev pub wait_limit_us : ℕ
wait_limit_us = 10000000

module _ {D W : Type 0} (decode : List ℕ → Option (ℕ × ℕ)) (encode : ℕ → ℕ → List ℕ) (host : Host D)
    (q : Quic W) (net : ClientQuic D W) where
  -- `client_cb`, with a number of rounds for its loop. To close a connection again does nothing.
  unfoldable pub client_cb : ℕ → Callback D W
  client_cb rounds event bytes s = elim (receive_event decode host rounds event bytes s.app) [
    | none ↦ none
    | some app ↦ some (record {
      app = app;
      world = if app.closed && not s.app.closed then q.close s.world else s.world;
    })
  ]

  -- The test of the loop that waits for the handshake. The clock is read only if the state is one to
  -- wait in.
  unfoldable pub keeps_waiting : ℕ → ℕ → W → Bool × W
  keeps_waiting state start w =
      let (now, w1) = q.current_time w in
      if ltb state q.state_client_ready_start
        && not (state == q.state_disconnecting)
        && not (state == q.state_disconnected)
      then (ltb ((now + 2 ^ 64 - start) % 2 ^ 64) wait_limit_us, w1)
      else (false, w)

  -- The loop, with a number of rounds. It ends with the state that was read last; what the packet
  -- loop answers is not looked at.
  unfoldable pub wait_handshake : ℕ → ℕ → ℕ → ℕ → Session D W → Option (ℕ × Session D W)
  wait_handshake zero rounds state start s = none
  wait_handshake (suc n) rounds state start s =
      let (waits, w) = keeps_waiting state start s.world in
      let s1 = record s { world = w } in
      elim waits [
        | false ↦ some (state, s1)
        | true ↦ elim (net.packet_loop (client_cb rounds) s1) [
          | none ↦ none
          | some (ret, s2) ↦ wait_handshake n rounds (q.cnx_state s2.world) start s2
        ]
      ]

  -- A header block goes out on the control stream, if there is one.
  unfoldable pub send_block : ℕ → Option (List ℕ) → W → Bool × W
  send_block ctrl_id none w = (false, w)
  send_block ctrl_id (some block) w =
      let (ret, w1) = h3zero_create_headers_frame encode q true ctrl_id (some block) false w in
      (is_ok ret, w1)

  -- The CONNECT request: whether it was sent, and what that left.
  unfoldable pub send_connect : List ℕ → CliOpts → W → Bool × W
  send_connect sni_host opt w =
      send_block (q.next_local_stream_id false w)
        (connect_text (authority sni_host opt.port) opt.path) w

  -- The loop that receives, with a number of rounds.
  unfoldable pub main_loop : ℕ → ℕ → Session D W → Option (Session D W)
  main_loop zero rounds s = none
  main_loop (suc n) rounds s =
      elim (s.app.running && ltb (q.cnx_state s.world) q.state_disconnecting) [
        | false ↦ some s
        | true ↦ elim (net.packet_loop (client_cb rounds) s) [
          | none ↦ none
          | some (ret, s1) ↦ elim (is_ok ret) [ false ↦ some s1 | true ↦ main_loop n rounds s1 ]
        ]
      ]

  -- Behind the handshake: no request in a state before `client_ready_start`.
  unfoldable pub after_handshake : ℕ → ℕ → List ℕ → CliOpts → ℕ × Session D W → Option (Session D W)
  after_handshake n rounds sni_host opt (state, s) =
      let (sent, w) = send_connect sni_host opt s.world in
      let s1 = record s { world = w } in
      if ltb state q.state_client_ready_start
      then some s
      else elim sent [ false ↦ some s1 | true ↦ main_loop n rounds s1 ]

  -- From `picoquic_start_client_cnx` to the label `cleanup`.
  unfoldable pub run_session : ℕ → ℕ → List ℕ → CliOpts → Session D W → Option (Session D W)
  run_session n rounds sni_host opt s =
      let (ret, w) = net.start_client_cnx s.world in
      let (start, w1) = q.current_time w in
      elim (is_ok ret) [
        | false ↦ some (record s { world = w })
        | true ↦ elim (wait_handshake n rounds (q.cnx_state w) start (record s { world = w1 })) [
          | none ↦ none
          | some r ↦ after_handshake n rounds sni_host opt r
        ]
      ]

  -- `cleanup`: the frame buffer and the context are freed.
  unfoldable pub cleanup : Session D W → Exit D W
  cleanup s = record {
    code = pos 0;
    session = record { app = record s.app { has_buffer = false }; world = net.free s.world };
  }

  -- An exit before there is a connection.
  abbrev pub exit_early : Session D W → W → Exit D W
  exit_early s w = record { code = pos 1; session = record s { world = w } }

  -- With a context.
  unfoldable pub with_context : ℕ → ℕ → CliOpts → Session D W → Option (Exit D W)
  with_context n rounds opt s =
      let sni_host = or_host opt.sni opt in
      let (ret, w) = net.get_server_address (or_host opt.addr opt) opt.port s.world in
      let (now, w1) = q.current_time w in
      let (made, w2) = net.create_cnx sni_host opt.alpn w1 in
      let s2 : Session D W = record { app = fresh_app opt s.app.disk; world = q.set_callback w2 } in
      if not (is_ok ret)
      then some (exit_early s (net.free w))
      else if not made
      then some (exit_early s (net.free w2))
      else elim (run_session n rounds sni_host opt s2) [ none ↦ none | some s3 ↦ some (cleanup s3) ]

  -- `main` with options.
  unfoldable pub start : ℕ → ℕ → CliOpts → Session D W → Option (Exit D W)
  start n rounds opt s =
      let dirs =
        net.make_dir (codes "qlogs")
          (net.make_dir (codes "binlog") (net.make_dir opt.out_dir s.world)) in
      let (now, w) = q.current_time dirs in
      let (made, w1) = net.create opt.alpn w in
      let w2 = net.set_logs w1 in
      let w3 = if opt.no_verify then net.set_verify_certificate_callback w2 else w2 in
      if made then with_context n rounds opt (record s { world = w3 }) else some (exit_early s w1)

  -- `main`; the session's `app` is a placeholder until there is a connection.
  unfoldable pub main : ℕ → ℕ → List CliOpt → Session D W → Option (Exit D W)
  main n rounds args s = elim (parse_cli args) [
    | none ↦ some (exit_early s s.world)
    | some opt ↦ start n rounds opt s
  ]
