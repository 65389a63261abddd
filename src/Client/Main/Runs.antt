-- ===== src/Client/Main/Runs.antt =====
-- The theorems on the client's `main` at a small concrete system. Its packet loop brings the
-- handshake to its end, delivers one frame of one byte, and closes the connection.
use m_quic.Prelude.{
  ℕ, ◌+◌, ◌%◌, ◌^◌, ◌≤◌, ◌<◌, ◌≡◌, refl, arith, ltb, if◌then◌else◌, Bool, true, false, ◌&&◌, ◌⊎◌,
  inr, pos,
}
use m_quic.Prelude.{List, [], ◌∷◌, ◌++◌, length, Option, none, some}
use m_quic.Prelude.Text.{codes, decimal, digits}
use m_quic.Varint.{wt_varint_decode}
use m_quic.Varint.Encode.{varint, varint_size}
use m_quic.Quic.{Quic}
use m_quic.Quic.Bench.{Bench, bench_quic}
use m_quic.Client.Stream.{Host}
use m_quic.Client.Receive.{Receiver, stream_data}
use m_quic.Client.Request.Laws.{Encodes}
use m_quic.Client.Options.{CliOpt, CliOpts, opt_host, opt_port, default_opts}
use m_quic.Client.Main.{
  Session, Callback, ClientQuic, Exit, main, send_connect, wait_handshake, authority, client_cb,
}
use m_quic.Client.Main.Loops.{Ticks, Drains, wait_handshake_ends}
use m_quic.Client.Main.Laws.{lines, request_lines, send_connect-request}
use m_quic.Client.Main.Returns.{main_returns}
use m_quic.Client.Main.Contexts.{Counts}
use m_quic.Prelude.{◌-◌, ℤ, sym, ap}

abbrev encode : ℕ → ℕ → List ℕ
encode v cap = if ltb cap (varint_size v) then [] else varint v

encode-Encodes : Encodes encode
encode-Encodes v cap h = refl

abbrev generous : Host (Unit {0})
generous = record { alloc = λ n d. (true, d); fopen = λ n d. (true, d) }

abbrev clocked : Quic Bench
clocked = record bench_quic { current_time = λ b. (b.time % 2 ^ 64, b) }

-- The next world: the handshake, and then the end.
abbrev next_world : Bench → Bench
next_world b = record b { time = b.time + 1; state = if ltb b.state 13 then 13 else 19 }

abbrev deliver : Callback (Unit {0}) Bench → Session (Unit {0}) Bench → Receiver (Unit {0})
deliver cb s = elim (cb stream_data (1 ∷ 7 ∷ []) s) [ none ↦ s.app | some s1 ↦ s1.app ]

abbrev net : ClientQuic (Unit {0}) Bench
net = record {
  make_dir = λ name b. b;
  create = λ alpn b. (true, record b { contexts = b.contexts + 1 });
  set_logs = λ b. b;
  set_verify_certificate_callback = λ b. b;
  get_server_address = λ name port b. (pos 0, b);
  create_cnx = λ sni alpn b. (true, b);
  start_client_cnx = λ b. (pos 0, b);
  packet_loop = λ cb s. some (pos 0, record { app = deliver cb s; world = next_world s.world });
  free = λ b. record b { contexts = b.contexts - 1 };
}

abbrev decode : List ℕ → Option (ℕ × ℕ)
decode = wt_varint_decode

-- How many calls of the packet loop are to come.
abbrev left : Session (Unit {0}) Bench → ℕ
left s = if ltb s.world.state 13 then 2 else if ltb s.world.state 15 then 1 else 0

net-Ticks : Ticks decode encode generous clocked net 9 (λ b. b.time)
net-Ticks = record {
  shows = λ w. refl;
  reads = λ w. omega arith;
  reads_soon = λ w. omega arith;
  later = λ s. (
    pos 0,
    record {
      app = deliver (client_cb decode encode generous clocked net 9) s;
      world = next_world s.world;
    },
    refl,
    omega arith,
    omega arith,
  );
}

left_falls :
    (b : Bench) (running : Bool)
    → running && ltb b.state 15 ≡ true
    → (if ltb (next_world b).state 13 then 2 else if ltb (next_world b).state 15 then 1 else 0)
      < (if ltb b.state 13 then 2 else if ltb b.state 15 then 1 else 0)
left_falls b running h = ground arith

net-Drains : Drains decode encode generous clocked net 9 left
net-Drains = record {
  returns = λ s on. (
    pos 0,
    record {
      app = deliver (client_cb decode encode generous clocked net 9) s;
      world = next_world s.world;
    },
    refl,
    inr (left_falls s.world s.app.running on),
  );
}

left_few : (s : Session (Unit {0}) Bench) → left s ≤ 10000000
left_few s = ground arith

abbrev blank : Receiver (Unit {0})
blank = record {
  max_frames = 0;
  frame_count = 0;
  has_out_dir = false;
  has_buffer = false;
  buffer_size = 0;
  frame_size = 0;
  received = [];
  running = true;
  closed = false;
  files = [];
  disk = tt;
}

abbrev before_start : Session (Unit {0}) Bench
before_start = record {
  app = blank;
  world = record { time = 5; room = 9; state = 0; array = []; next_id = 0; contexts = 0; log = [] };
}

abbrev example_args : List CliOpt
example_args = opt_host (codes "cam") ∷ opt_port (pos 443) ∷ []

stream_counts :
    (sid : ℕ) (bytes : List ℕ) (fin : Bool) (b : Bench)
    → (clocked.add_to_stream sid bytes fin b).1.contexts ≡ b.contexts
stream_counts sid bytes fin b = ground arith

abbrev contexts_after : Option (ℤ × Session (Unit {0}) Bench) → ℕ
contexts_after none = 0
contexts_after (some (ret, s)) = s.world.contexts

net-Counts : Counts decode encode generous clocked net 9 (λ b. b.contexts)
net-Counts = record {
  creates = λ alpn w. refl;
  frees = λ w h. omega (arith, h);
  make_dir_keeps = λ name w. refl;
  set_logs_keeps = λ w. refl;
  verify_keeps = λ w. refl;
  address_keeps = λ name port w. refl;
  create_cnx_keeps = λ sni alpn w. refl;
  start_keeps = λ w. refl;
  packets_keep = λ s s1 ret e. sym (ap contexts_after e);
  time_keeps = λ w. refl;
  callback_keeps = λ w. refl;
  stream_keeps = stream_counts;
}

main_returns_example :
    (e : Exit (Unit {0}) Bench) × (main decode encode generous clocked net 10000001 9 example_args
        before_start
      ≡ some e)
    × (((e.code ≡ pos 0) ⊎ (e.code ≡ pos 1)) × (e.session.world.contexts ≡ 0))
main_returns_example =
    main_returns decode encode generous clocked net 9 (λ b. b.time) net-Ticks left net-Drains
      10000000 left_few (omega arith) (λ b. b.contexts) net-Counts example_args before_start

abbrev camera_opts : CliOpts
camera_opts = record default_opts { host = some (codes "cam") }

abbrev camera_lines : List ℕ
camera_lines = lines (request_lines (codes "cam:4433") (codes "/"))

send_connect-request_example :
    send_connect decode encode generous clocked net (codes "cam") camera_opts before_start.world ≡ (
      true,
      (clocked.add_to_stream 0
          (1 ∷ (varint (length camera_lines) ++ camera_lines))
          false
          before_start.world).1,
    )
unfolding authority decimal digits varint
send_connect-request_example =
    send_connect-request decode encode encode-Encodes generous clocked net (codes "cam") camera_opts
      before_start.world

wait_handshake_ends_example :
    (r : ℕ × Session (Unit {0}) Bench) × (wait_handshake decode encode generous clocked net 10000001
        9 0 5 before_start
      ≡ some r)
    × ((13 ≤ r.0) ⊎ (r.0 ≡ 15) ⊎ (r.0 ≡ 19) ⊎ (10000005 ≤ r.1.world.time))
wait_handshake_ends_example =
    wait_handshake_ends decode encode generous clocked net 9 (λ b. b.time) net-Ticks 10000000 5 0 5
      before_start refl (omega arith) (omega arith) (omega arith)
