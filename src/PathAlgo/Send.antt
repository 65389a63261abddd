-- ===== src/PathAlgo/Send.antt =====
-- What `path_algo_pick_send_path` chooses.
use m_quic.Prelude.{ℕ, zero, suc, ◌+◌, ◌≤◌, ◌<◌, ◌≡◌, ◌≢◌, refl, arith, ltb, ◌⊎◌, inl, inr}
use m_quic.Prelude.{is_index, ℤ, pos, minus_one, true, some, ◌&&◌}
use m_quic.Prelude.{[], ◌∷◌, length, Bool-cases}
use m_quic.PathAlgo.{Paths, path_at, PathAlgo, is_path_sendable, rank_rtt, send_scan}
use m_quic.PathAlgo.{u64_max, path_algo_pick_send_path}

send_scan-le : (ps : Paths) (i : ℕ) (best : ℤ) (r : ℕ) → (send_scan ps i best r).1 ≤ r
unfolding send_scan
send_scan-le [] i best r = omega arith
send_scan-le (p ∷ ps) i best r =
    ground (arith, send_scan-le ps (i + 1) (pos i) (rank_rtt p), send_scan-le ps (i + 1) best r)

-- No sendable path is ranked before the one found.
send_scan_min :
    (ps : Paths) (i : ℕ) (best : ℤ) (r j : ℕ)
    → is_path_sendable (path_at ps j) ≡ true
    → (send_scan ps i best r).1 ≤ rank_rtt (path_at ps j)
unfolding send_scan
send_scan_min [] i best r j h = unfold is_path_sendable in cc
send_scan_min (p ∷ ps) i best r zero h =
    ground (arith, send_scan-le ps (i + 1) (pos i) (rank_rtt p), send_scan-le ps (i + 1) best r)
send_scan_min (p ∷ ps) i best r (suc j) h =
    ground (
      arith,
      send_scan_min ps (i + 1) (pos i) (rank_rtt p) j h,
      send_scan_min ps (i + 1) best r j h,
    )

-- Where the scan ends: at what it began with, or at a sendable path.
send_scan_found :
    (ps : Paths) (i : ℕ) (best : ℤ) (r : ℕ)
    → (send_scan ps i best r ≡ (best, r))
      ⊎ ((k : ℕ) × (k < length ps)
          × (is_path_sendable (path_at ps k) ≡ true)
          × (send_scan ps i best r ≡ (pos (i + k), rank_rtt (path_at ps k))))
unfolding send_scan
send_scan_found [] i best r = inl refl
send_scan_found (p ∷ ps) i best r = elim (Bool-cases (is_path_sendable p && ltb (rank_rtt p) r)) [
  | inl b ↦ elim (send_scan_found ps (i + 1) (pos i) (rank_rtt p)) [
    | inl e ↦ inr (0, omega arith, ground arith, ground arith)
    | inr (k, lt, s, e) ↦ inr (suc k, omega arith, s, ground arith)
  ]
  | inr b ↦ elim (send_scan_found ps (i + 1) best r) [
    | inl e ↦ inl (ground arith)
    | inr (k, lt, s, e) ↦ inr (suc k, omega arith, s, ground arith)
  ]
]

-- A choice that was not there at the start is ranked strictly before the start.
send_scan-lt :
    (ps : Paths) (i : ℕ) (best : ℤ) (r m : ℕ)
    → (send_scan ps i best r).0 ≡ pos m
    → best ≢ pos m
    → (send_scan ps i best r).1 < r
unfolding send_scan
send_scan-lt [] i best r m e ne = absurd (ne e)
send_scan-lt (p ∷ ps) i best r m e ne =
    ground (arith, send_scan-le ps (i + 1) (pos i) (rank_rtt p), send_scan-lt ps (i + 1) best r m)

-- A sendable path before the chosen one is ranked strictly behind it.
send_scan_first :
    (ps : Paths) (i : ℕ) (best : ℤ) (r m j : ℕ)
    → is_path_sendable (path_at ps j) ≡ true
    → (send_scan ps i best r).0 ≡ pos m
    → best ≢ pos m
    → i + j < m
    → (send_scan ps i best r).1 < rank_rtt (path_at ps j)
unfolding send_scan
send_scan_first [] i best r m j h e ne lt = unfold is_path_sendable in cc
send_scan_first (p ∷ ps) i best r m zero h e ne lt =
    ground (arith, send_scan-lt ps (i + 1) (pos i) (rank_rtt p) m, send_scan-lt ps (i + 1) best r m)
send_scan_first (p ∷ ps) i best r m (suc j) h e ne lt = ground (
  arith,
  send_scan_first ps (i + 1) (pos i) (rank_rtt p) m j,
  send_scan_first ps (i + 1) best r m j,
)

-- If some path can be sent on, with a round-trip time below 2^64 - 1, the call chooses a sendable
-- path of the array, records it as the last one used, and leaves the next probe alone. No sendable
-- path has a smaller round-trip time, and of several with the smallest it is the first.
pub pick_send_path_best :
    (a : PathAlgo) (ps : Paths) (j : ℕ)
    → is_path_sendable (path_at ps j) ≡ true
    → rank_rtt (path_at ps j) < u64_max
    → (k : ℕ) × (k < length ps)
      × (is_path_sendable (path_at ps k) ≡ true)
      × (rank_rtt (path_at ps k) ≤ rank_rtt (path_at ps j))
      × ((k ≤ j) ⊎ (rank_rtt (path_at ps k) < rank_rtt (path_at ps j)))
      × (path_algo_pick_send_path (some a) (some ps)
          ≡ (pos k, some (record a { last_send = pos k })))
unfolding path_algo_pick_send_path
pick_send_path_best a [] j h lt = unfold is_path_sendable in cc
pick_send_path_best a (p ∷ ps) j h lt =
    let low = send_scan_min (p ∷ ps) 0 minus_one u64_max j h in
    elim (send_scan_found (p ∷ ps) 0 minus_one u64_max) [
      | inl e ↦ absurd (ground arith)
      | inr (k, le, s, e) ↦ (
        k,
        le,
        s,
        ground arith,
        ground (arith, send_scan_first (p ∷ ps) 0 minus_one u64_max k j),
        ground arith,
      )
    ]

-- On a non-empty array the answer is always an index of the array, and it is what is recorded.
pub pick_send_path_range :
    (a : PathAlgo) (ps : Paths)
    → 0 < length ps
    → (is_index (path_algo_pick_send_path (some a) (some ps)).0 (length ps) ≡ true)
      × ((path_algo_pick_send_path (some a) (some ps)).1
          ≡ some (record a { last_send = (path_algo_pick_send_path (some a) (some ps)).0 }))
unfolding path_algo_pick_send_path
pick_send_path_range a ps h = elim (send_scan_found ps 0 minus_one u64_max) [
  | inl e ↦ ground arith
  | inr (k, le, s, e) ↦ ground arith
]
