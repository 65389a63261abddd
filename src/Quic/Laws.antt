-- ===== src/Quic/Laws.antt =====
-- What the proofs assume of picoquic, as named records over one implementation.
use m_quic.Prelude.{ℕ, ◌≤◌, ◌≡◌, Bool, true, false, is_ok, List, [], ◌∷◌, ◌++◌}
use m_quic.Prelude.{Option}
use m_quic.PathAlgo.{QuicPath}
use m_quic.Quic.{Quic}

-- One write that a stream accepted.
pub record Write : Type 0 where
  pub sid : ℕ
  pub bytes : List ℕ
  pub fin : Bool

-- `written` is what has been queued on all streams, in order: an accepted write is queued at the
-- end, a refused one is not queued, and no other call queues anything.
pub record Queues {W : Type 0} (q : Quic W) (written : W → List Write) : Type 0 where
  pub accepts :
      (sid : ℕ) (bytes : List ℕ) (fin : Bool) (w : W)
      → is_ok (q.add_to_stream sid bytes fin w).0 ≡ true
      → written (q.add_to_stream sid bytes fin w).1
        ≡ written w ++ (record { sid = sid; bytes = bytes; fin = fin } ∷ [])
  pub refuses :
      (sid : ℕ) (bytes : List ℕ) (fin : Bool) (w : W)
      → is_ok (q.add_to_stream sid bytes fin w).0 ≡ false
      → written (q.add_to_stream sid bytes fin w).1 ≡ written w
  pub time_queues_nothing : (w : W) → written (q.current_time w).1 ≡ written w
  pub clock_queues_nothing : (w : W) → written (q.gettimeofday w).2 ≡ written w
  pub sleep_queues_nothing : (us : ℕ) (w : W) → written (q.usleep us w) ≡ written w
  pub pacing_queues_nothing :
      (p : Option QuicPath) (now next : ℕ) (w : W)
      → written (q.is_sending_authorized p now next w).2 ≡ written w
  pub update_queues_nothing :
      (p : Option QuicPath) (len now : ℕ) (w : W)
      → written (q.update_pacing_after_send p len now w) ≡ written w
  pub affinity_queues_nothing :
      (sid uid : ℕ) (w : W) → written (q.set_stream_path_affinity sid uid w) ≡ written w
  pub priority_queues_nothing :
      (sid prio : ℕ) (w : W) → written (q.set_stream_priority sid prio w).1 ≡ written w

-- Pacing authorises a write whenever it is asked for the first time, as on a path whose rate leaves
-- room for each write. Nothing is assumed of a call that refuses.
pub record Permits {W : Type 0} (q : Quic W) : Type 0 where
  pub authorises :
      (p : Option QuicPath) (now : ℕ) (w : W) → (q.is_sending_authorized p now now w).0 ≡ true

-- What picoquic documents of a refusal: the call never raises `*next_time`. With a bucket that is
-- still empty it refuses again at the same time, whatever else it is asked.
pub record Refuses {W : Type 0} (q : Quic W) (empty : Option QuicPath → ℕ → W → Type 0)
    : Type 0 where
  pub lowers :
      (p : Option QuicPath) (now next : ℕ) (w : W) → (q.is_sending_authorized p now next w).1 ≤ next
  pub refuses :
      (p : Option QuicPath) (now next : ℕ) (w : W)
      → empty p now w
      → (q.is_sending_authorized p now next w).0 ≡ false
  pub stays_empty :
      (p : Option QuicPath) (now next : ℕ) (w : W)
      → empty p now w
      → empty p now (q.is_sending_authorized p now next w).2
