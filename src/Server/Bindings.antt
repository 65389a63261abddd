-- ===== src/Server/Bindings.antt =====
-- The streams bound to paths, src/quic_server.c: `ensure_stream_for_path` and
-- `finish_all_bindings`.
pub mod Laws
pub mod Table
use m_quic.Prelude.{ℕ, zero, suc, ◌+◌, ◌-◌, ltb, ◌==◌, if◌then◌else◌, Bool, true, false, not, min}
use m_quic.Prelude.{ℤ, pos, minus_one, is_ok, is_index, index_of, bit_and, ◌&&◌, ◌||◌}
use m_quic.Prelude.{List, [], ◌++◌, length, get_or, set, Option, none, some}
use m_quic.Prelude.Effect.{Eff, pure, continue, ◌>>=◌, ◌>>◌}
use m_quic.Varint.{quic_varint_encode}
use m_quic.PathAlgo.{QuicPath, path_at, is_verified}
use m_quic.Quic.{Quic}
use m_quic.Server.{Server, StreamerContext, Binding, unbound, max_paths, on_world}
use m_quic.Server.Pacing.{send_with_pacing}

abbrev pub binding : List Binding → ℕ → Binding
binding bs i = get_or bs i unbound

abbrev pub path_id : Option QuicPath → ℕ
path_id none = 0
path_id (some p) = p.unique_path_id

-- The header of a WebTransport stream: its type and the session's control stream.
abbrev pub wt_header : ℕ → List ℕ
wt_header control_stream_id = quic_varint_encode 0x54 ++ quic_varint_encode control_stream_id

module _ {W : Type 0} (q : Quic W) (rounds : ℕ) where
  -- After the header was accepted: the stream is tied to its path and entered in the table.
  abbrev pub record_binding : ℕ → Option QuicPath → ℕ → Server W → Server W
  record_binding i path sid s = record {
    ctx = record s.ctx {
      bind = set s.ctx.bind i (record { path_idx = i; sid = sid; ready = true });
    };
    world = q.set_stream_path_affinity sid (path_id path) s.world;
  }

  -- From the choice of the stream on.
  unfoldable pub open_stream : ℕ → Option QuicPath → Eff (Server W) ℤ
  open_stream i path s =
      let sid = q.next_local_stream_id true s.world in
      let sent =
        on_world (send_with_pacing q rounds path sid (wt_header s.ctx.control_stream_id) false) s in
      if bit_and sid 0x3 == 0x3
      then continue sent (λ ret s'.
        if is_ok ret then some (pos 0, record_binding i path sid s') else some (minus_one, s'))
      else some (minus_one, s)

  unfoldable pub ensure_stream_for_path : ℤ → Eff (Server W) ℤ
  ensure_stream_for_path pidx s =
      let ps = q.paths s.world in
      let path = path_at ps (index_of pidx) in
      if not s.ctx.has_cnx
      then some (minus_one, s)
      else if not (is_index pidx (length ps) && is_index pidx max_paths)
      then some (minus_one, s)
      else if (binding s.ctx.bind (index_of pidx)).ready
      then some (pos 0, s)
      else if not (is_verified path)
      then some (minus_one, s)
      else open_stream (index_of pidx) path s

  -- The loop with `n` rounds left, from index `i` on. The number of paths is read in each round.
  unfoldable pub finish_from : ℕ → ℕ → Eff (Server W) (Unit {0})
  finish_from zero i s = some (tt, s)
  finish_from (suc n) i s =
      let b = binding s.ctx.bind i in
      let path = path_at (q.paths s.world) b.path_idx in
      let skipped = finish_from n (i + 1) s in
      let finished =
        continue (on_world (send_with_pacing q rounds path b.sid [] true) s)
          (λ _ s'. finish_from n (i + 1) s') in
      if not (ltb i (length (q.paths s.world)))
      then some (tt, s)
      else if b.ready
      then finished
      else skipped

  unfoldable pub finish_all_bindings : Eff (Server W) (Unit {0})
  finish_all_bindings s = if s.ctx.has_cnx then finish_from max_paths 0 s else some (tt, s)
