-- ===== src/PathAlgo.antt =====
-- The multipath scheduler, src/path_algo.c with include/path_algo.h. A pointer that may be NULL is
-- an `Option`; a connection is the array `path[0 .. nb_paths)` of picoquic, of which the code reads
-- the fields below.
pub mod Send
pub mod Probe
mod Runs
use m_quic.Prelude.{ℕ, zero, suc, ◌+◌, ◌-◌, ◌%◌, ◌^◌, ltb, ◌==◌, if◌then◌else◌, not, ◌&&◌}
use m_quic.Prelude.{ℤ, pos, negsuc, minus_one, is_at, Bool, true, false, Option, none, some}
use m_quic.Prelude.{List, [], ◌∷◌, length, get_elem?}

-- The fields of `picoquic_path_t` and of its first tuple that this program reads.
pub record PathTuple : Type 0 where
  pub challenge_verified : Bool

pub record QuicPath : Type 0 where
  pub first_tuple : Option PathTuple
  pub path_is_demoted : Bool
  pub rtt_min : ℕ
  pub smoothed_rtt : ℕ
  pub unique_path_id : ℕ

-- `cnx->path[i]` for `i` below `cnx->nb_paths`, with NULL for no path.
abbrev pub Paths : Type 0
Paths = List (Option QuicPath)

abbrev pub path_at : Paths → ℕ → Option QuicPath
path_at ps i = elim (get_elem? ps i) [ none ↦ none | some p ↦ p ]

abbrev pub is_verified : Option QuicPath → Bool
is_verified none = false
is_verified (some p) = elim p.first_tuple [ none ↦ false | some t ↦ t.challenge_verified ]

-- `struct path_algo_s`
pub record PathAlgo : Type 0 where
  pub last_send : ℤ
  pub next_probe_us : ℕ

unfoldable pub is_path_sendable : Option QuicPath → Bool
is_path_sendable none = false
is_path_sendable (some p) = is_verified (some p) && not p.path_is_demoted

-- `allocated` is whether `calloc` gave the memory.
unfoldable pub path_algo_create : Bool → Option PathAlgo
path_algo_create allocated =
    if allocated then some (record { last_send = minus_one; next_probe_us = 0 }) else none

-- Freeing leaves no state behind; the caller's pointer is then set to NULL.
unfoldable pub path_algo_destroy : Option PathAlgo → Option PathAlgo
path_algo_destroy a = none

unfoldable pub path_algo_refresh : Option PathAlgo → Option PathAlgo
path_algo_refresh a = a

-- The round-trip time that a path is ranked by.
unfoldable pub rank_rtt : Option QuicPath → ℕ
rank_rtt none = 1
rank_rtt (some p) =
    let rtt : ℕ = if p.rtt_min == 0 then p.smoothed_rtt else p.rtt_min in
    if rtt == 0 then 1 else rtt

-- `(uint64_t)-1`
abbrev pub u64_max : ℕ
u64_max = 2 ^ 64 - 1

-- The loop from index `i` on, with `best` and `best_rtt`.
unfoldable pub send_scan : Paths → ℕ → ℤ → ℕ → ℤ × ℕ
send_scan [] i best best_rtt = (best, best_rtt)
send_scan (p ∷ ps) i best best_rtt =
    let better : Bool = is_path_sendable p && ltb (rank_rtt p) best_rtt in
    send_scan ps (i + 1) (if better then pos i else best) (if better then rank_rtt p else best_rtt)

-- `best < 0` is set to 0.
abbrev pub or_first : ℤ → ℤ
or_first (pos i) = pos i
or_first (negsuc i) = pos 0

unfoldable pub path_algo_pick_send_path : Option PathAlgo → Option Paths → ℤ × Option PathAlgo
path_algo_pick_send_path none cnx = (minus_one, none)
path_algo_pick_send_path (some a) none = (minus_one, some a)
path_algo_pick_send_path (some a) (some ps) =
    let best : ℤ = or_first (send_scan ps 0 minus_one u64_max).0 in
    if length ps == 0 then (minus_one, some a) else (best, some (record a { last_send = best }))

-- The index that the probe starts from.
abbrev pub probe_start : ℤ → ℕ → ℕ
probe_start (pos i) nb = (i + 1) % nb
probe_start (negsuc i) nb = 0

unfoldable pub is_probe : Paths → ℤ → ℕ → Bool
is_probe ps last i = not (is_at last i) && (elim (path_at ps i) [ none ↦ false | some p ↦ true ])

-- The loop with `n` rounds left, from round `k` on.
unfoldable pub probe_scan : ℕ → Paths → ℤ → ℕ → ℕ → Option ℕ
probe_scan zero ps last start k = none
probe_scan (suc n) ps last start k =
    let i : ℕ = (start + k) % length ps in
    let rest = probe_scan n ps last start (k + 1) in if is_probe ps last i then some i else rest

abbrev pub probe_interval_us : ℕ
probe_interval_us = 250000

unfoldable pub path_algo_pick_probe_path : Option PathAlgo → Option Paths → ℕ → ℤ × Option PathAlgo
path_algo_pick_probe_path none cnx now_us = (minus_one, none)
path_algo_pick_probe_path (some a) none now_us = (minus_one, some a)
path_algo_pick_probe_path (some a) (some ps) now_us =
    if ltb (length ps) 2
    then (minus_one, some a)
    else if ltb now_us a.next_probe_us
    then (minus_one, some a)
    else (elim (probe_scan (length ps) ps a.last_send (probe_start a.last_send (length ps)) 0) [
      | none ↦ (minus_one, some a)
      | some i ↦ (pos i, some (record a { next_probe_us = (now_us + probe_interval_us) % 2 ^ 64 }))
    ])

unfoldable pub path_algo_on_sent : Option PathAlgo → ℤ → ℕ → Option PathAlgo
path_algo_on_sent none idx bytes = none
path_algo_on_sent (some a) idx bytes = some (record a { last_send = idx })

unfoldable pub path_algo_on_idle : Option PathAlgo → ℕ → Option PathAlgo
path_algo_on_idle a now_us = a
