-- ===== src/Server/Bindings/Table.antt =====
-- The table of bindings stays well formed.
use m_quic.Prelude.{ℕ, ◌<◌, ◌≡◌, refl, zero, suc, arith, true, false, ℤ, pos, negsuc, ◌⊎◌, inl, inr}
use m_quic.Prelude.{is_ok, index_of, bit_and, List, length, Option, some, set, replicate}
use m_quic.Prelude.{Bool-cases, Option-cases, length-set, ◌==◌, ◌∙◌, ap}
use m_quic.PathAlgo.{QuicPath, path_at}
use m_quic.Quic.{Quic}
use m_quic.Server.{Server, Binding, max_paths, unbound}
use m_quic.Server.Pacing.{send_with_pacing}
use m_quic.Server.Bindings.{binding, wt_header, open_stream, ensure_stream_for_path}
use m_quic.Server.Bindings.Laws.{binding-set, binding-set_ne}
use native.Mathlib.Decide.{ℕ_discrete}

-- The table of bindings: as long as it was declared, and each ready entry names its own index and a
-- stream that the server opened for itself alone.
pub record IsBound (bs : List Binding) : Type 0 where
  pub size : length bs ≡ max_paths
  pub own : (i : ℕ) → (binding bs i).ready ≡ true → (binding bs i).path_idx ≡ i
  pub uni : (i : ℕ) → (binding bs i).ready ≡ true → bit_and (binding bs i).sid 0x3 ≡ 0x3

unready : (n i : ℕ) → (binding (replicate n unbound) i).ready ≡ false
unready zero i = refl
unready (suc n) zero = refl
unready (suc n) (suc i) = unready n i

-- The table as `memset` leaves it.
pub unbound-IsBound : IsBound (replicate max_paths unbound)
unbound-IsBound = record {
  size = refl;
  own = λ i r. ground (arith, unready max_paths i, r);
  uni = λ i r. ground (arith, unready max_paths i, r);
}

set-IsBound :
    (bs : List Binding) (i sid : ℕ)
    → IsBound bs
    → i < max_paths
    → bit_and sid 0x3 ≡ 0x3
    → IsBound (set bs i (record { path_idx = i; sid = sid; ready = true }))
set-IsBound bs i sid v lt uni =
    let b : Binding = record { path_idx = i; sid = sid; ready = true } in
    record {
      size = length-set bs i b ∙ v.size;
      own = λ j r. elim (ℕ_discrete i j) [
        | yes e ↦
            rw (← e) (ap (λ (x : Binding). x.path_idx) (binding-set bs i b (omega (arith, v.size))))
        | no ne ↦ ground (arith, binding-set_ne bs i j b ne, v.own j)
      ];
      uni = λ j r. elim (ℕ_discrete i j) [
        | yes e ↦ rw (← e) (
            ap (λ (x : Binding). bit_and x.sid 0x3) (binding-set bs i b (omega (arith, v.size)))
            ∙ uni)
        | no ne ↦ ground (arith, binding-set_ne bs i j b ne, v.uni j)
      ];
    }

module _ {W : Type 0} (q : Quic W) (rounds : ℕ) where
  -- What opening a stream does to the table, if it answers.
  open_stream_bind :
      (i : ℕ) (path : Option QuicPath) (s s' : Server W) (r : ℤ)
      → open_stream q rounds i path s ≡ some (r, s')
      → (s'.ctx.bind ≡ s.ctx.bind)
        ⊎ ((sid : ℕ) × (bit_and sid 0x3 ≡ 0x3)
            × (s'.ctx.bind ≡ set s.ctx.bind i (record { path_idx = i; sid = sid; ready = true })))
  unfolding open_stream
  open_stream_bind i path s s' r e =
      let sid = q.next_local_stream_id true s.world in
      elim (Option-cases
        (send_with_pacing q rounds path sid (wt_header s.ctx.control_stream_id) false s.world)) [
          | inl stuck ↦ inl (ground (arith, stuck))
          | inr ((r', w), sent) ↦ elim (Bool-cases (bit_and sid 0x3 == 0x3)) [
            | inl uni ↦ elim (Bool-cases (is_ok r')) [
              | inl ok ↦ inr (sid, ground (arith, uni), ground (arith, sent, uni, ok))
              | inr bad ↦ inl (ground (arith, sent, uni, bad))
            ]
            | inr odd ↦ inl (ground (arith, odd))
          ]
        ]

  ensure_stream_parts :
      (pidx : ℤ) (s s' : Server W) (r : ℤ)
      → ensure_stream_for_path q rounds pidx s ≡ some (r, s')
      → (s'.ctx.bind ≡ s.ctx.bind)
        ⊎ ((index_of pidx < max_paths)
            × (open_stream q rounds (index_of pidx) (path_at (q.paths s.world) (index_of pidx)) s
                ≡ some (r, s')))
  unfolding ensure_stream_for_path
  ensure_stream_parts (pos i) s s' r e = ground arith
  ensure_stream_parts (negsuc i) s s' r e = ground arith

  -- However the call answers, and whatever picoquic does, the table of bindings stays well formed:
  -- each ready entry names its own index and a server-initiated unidirectional stream.
  pub ensure_stream-IsBound :
      (pidx : ℤ) (s s' : Server W) (r : ℤ)
      → IsBound s.ctx.bind
      → ensure_stream_for_path q rounds pidx s ≡ some (r, s')
      → IsBound s'.ctx.bind
  ensure_stream-IsBound pidx s s' r v e = elim (ensure_stream_parts pidx s s' r e) [
    | inl same ↦ rw same v
    | inr (lt, opened) ↦
        elim (open_stream_bind (index_of pidx) (path_at (q.paths s.world) (index_of pidx)) s s' r
          opened) [
            | inl same ↦ rw same v
            | inr (sid, uni, set_one) ↦
                rw set_one (set-IsBound s.ctx.bind (index_of pidx) sid v lt uni)
          ]
  ]
