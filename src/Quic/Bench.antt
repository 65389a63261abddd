-- ===== src/Quic/Bench.antt =====
-- A small concrete picoquic, at which the theorems are tried: streams accept everything until
-- `room` writes are used up, the clock advances by the sleeps alone, and pacing authorises at
-- once.
use m_quic.Prelude.{ℕ, ◌+◌, ◌-◌, ◌/◌, ◌%◌, ◌≡◌, refl, arith, Bool, true, false}
use m_quic.Prelude.{
  ℤ, pos, minus_one, is_ok, List, [], ◌∷◌, none, some, ◌++◌, if◌then◌else◌, Option, ◌==◌,
}
use m_quic.PathAlgo.{QuicPath, Paths}
use m_quic.Quic.{Quic}
use m_quic.Quic.Laws.{Write, Queues, Permits}

pub record Bench : Type 0 where
  pub time : ℕ
  pub room : ℕ
  pub state : ℕ
  pub array : Paths
  pub next_id : ℕ
  pub contexts : ℕ
  pub log : List Write

-- One more write, if there is room.
abbrev queue : ℕ → List ℕ → Bool → Bench → ℤ × Bench
queue sid bytes fin b = if b.room == 0 then (minus_one, b) else (
  pos 0,
  record b {
    room = b.room - 1;
    next_id = b.next_id + 4;
    log = b.log ++ (record { sid = sid; bytes = bytes; fin = fin } ∷ []);
  },
)

abbrev pub bench_quic : Quic Bench
bench_quic = record {
  paths = λ b. b.array;
  cnx_state = λ b. b.state;
  state_client_ready_start = 13;
  state_disconnecting = 15;
  state_disconnected = 19;
  current_time = λ b. (b.time, b);
  gettimeofday = λ b. (b.time / 1000000, b.time % 1000000, b);
  usleep = λ us b. record b { time = b.time + us };
  is_sending_authorized = λ p now next b. (true, next, b);
  update_pacing_after_send = λ p len now b. b;
  add_to_stream = queue;
  next_local_stream_id = λ uni b. b.next_id;
  set_stream_path_affinity = λ sid uid b. b;
  set_stream_priority = λ sid prio b. (pos 0, b);
  enable_keep_alive = λ us b. b;
  set_callback = λ b. b;
  close = λ b. b;
}

bench_accepts :
    (sid : ℕ) (bytes : List ℕ) (fin : Bool) (b : Bench)
    → is_ok (queue sid bytes fin b).0 ≡ true
    → (queue sid bytes fin b).1.log ≡ b.log ++ (record { sid = sid; bytes = bytes; fin = fin } ∷ [])
bench_accepts sid bytes fin b h = ground arith

bench_refuses :
    (sid : ℕ) (bytes : List ℕ) (fin : Bool) (b : Bench)
    → is_ok (queue sid bytes fin b).0 ≡ false
    → (queue sid bytes fin b).1.log ≡ b.log
bench_refuses sid bytes fin b h = ground arith

pub bench_Queues : Queues bench_quic (λ b. b.log)
bench_Queues = record {
  accepts = bench_accepts;
  refuses = bench_refuses;
  time_queues_nothing = λ w. refl;
  clock_queues_nothing = λ w. refl;
  sleep_queues_nothing = λ us w. refl;
  pacing_queues_nothing = λ p now next w. refl;
  update_queues_nothing = λ p len now w. refl;
  affinity_queues_nothing = λ sid uid w. refl;
  priority_queues_nothing = λ sid prio w. refl;
}

pub bench_Permits : Permits bench_quic
bench_Permits = record { authorises = λ p now w. refl }

-- A verified path.
abbrev pub lan : Option QuicPath
lan = some (record {
  first_tuple = some (record { challenge_verified = true });
  path_is_demoted = false;
  rtt_min = 20;
  smoothed_rtt = 25;
  unique_path_id = 0;
})

-- A picoquic that always has room.
abbrev pub open_quic : Quic Bench
open_quic = record bench_quic {
  paths = λ b. lan ∷ none ∷ [];
  add_to_stream =
      λ sid bytes fin b. (bench_quic.add_to_stream sid bytes fin (record b { room = 1 }));
}

pub open_Queues : Queues open_quic (λ b. b.log)
open_Queues = record {
  accepts = λ sid bytes fin b h. refl;
  refuses = λ sid bytes fin b h. ground (arith, h);
  time_queues_nothing = λ w. refl;
  clock_queues_nothing = λ w. refl;
  sleep_queues_nothing = λ us w. refl;
  pacing_queues_nothing = bench_Queues.pacing_queues_nothing;
  update_queues_nothing = λ p len now w. refl;
  affinity_queues_nothing = λ sid uid w. refl;
  priority_queues_nothing = λ sid prio w. refl;
}

pub open_Permits : Permits open_quic
open_Permits = record { authorises = λ p now w. refl }
