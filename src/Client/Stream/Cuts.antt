-- ===== src/Client/Stream/Cuts.antt =====
-- A frame's payload that is cut between two calls of `wt_handle_stream_data` of client/wt_client.c.
use m_quic.Prelude.{
  ℕ, zero, suc, ◌+◌, ◌*◌, ◌<◌, ◌≡◌, refl, ◌∙◌, sym, ap, arith, ◌==◌, true, false, pos,
}
use m_quic.Prelude.{
  List, [], ◌∷◌, ◌++◌, length, take, drop, some, length-append, append_assoc, take_all, drop_all,
}
use m_quic.Client.Stream.{Host, WtStream, App, again, payload_need, payload_round, stream_loop}
use m_quic.Client.Stream.Rank.{IsFit, taken, sub64_exact, payload_need_cap}
use m_quic.Client.Stream.Loop.{more_rounds, stream_round-framed, same_round}
use m_quic.Client.Stream.Ends.{stream_loop_ends}
use m_quic.Client.Stream.Frames.Rounds.{one_round}

take-front : (n k : ℕ) (a b : List ℕ) → n ≡ length a + k → take n (a ++ b) ≡ a ++ take k b
take-front n k [] b h = ap (λ (m : ℕ). take m b) (omega (arith, h))
take-front zero k (x ∷ a) b h = absurd (omega (arith, h))
take-front (suc n) k (x ∷ a) b h =
    ap (λ (l : List ℕ). x ∷ l) (take-front n k a b (omega (arith, h)))

drop-front : (n k : ℕ) (a b : List ℕ) → n ≡ length a + k → drop n (a ++ b) ≡ drop k b
drop-front n k [] b h = ap (λ (m : ℕ). drop m b) (omega (arith, h))
drop-front zero k (x ∷ a) b h = absurd (omega (arith, h))
drop-front (suc n) k (x ∷ a) b h = drop-front n k a b (omega (arith, h))

-- The stream with more of its payload.
abbrev pub holding : List ℕ → WtStream → WtStream
holding a st = record st { buf = st.buf ++ a }

module _ {D : Type 0} (host : Host D) (a b : List ℕ) (st : WtStream) (app : App D) (fit : IsFit st)
    (on : st.use_len_framing ≡ true) (part : length st.buf + length a < payload_need st) where
  taken_cut : taken (a ++ b) st ≡ length a + taken b (holding a st)
  unfolding payload_need
  taken_cut = ground (
    arith,
    sub64_exact (payload_need st) (length st.buf),
    sub64_exact (payload_need st) (length (st.buf ++ a)),
    payload_need_cap st,
    fit.small,
    part,
    length-append st.buf a,
    length-append a b,
  )

  payload_round_cut : payload_round host (a ++ b) st app ≡ payload_round host b (holding a st) app
  unfolding payload_round payload_need
  payload_round_cut =
      let filled : st.buf ++ take (taken (a ++ b) st) (a ++ b)
          ≡ (st.buf ++ a) ++ take (taken b (holding a st)) b =
        ap (λ (l : List ℕ). st.buf ++ l) (take-front _ _ a b taken_cut)
        ∙ sym (append_assoc st.buf a (take (taken b (holding a st)) b)) in
      let behind : drop (taken (a ++ b) st) (a ++ b) ≡ drop (taken b (holding a st)) b =
        drop-front _ _ a b taken_cut in
      let some_need : (payload_need st == 0) ≡ false = ground (arith, part) in
      rw (filled, behind, some_need) refl

  holding-IsFit : IsFit (holding a st)
  unfolding payload_need
  holding-IsFit = record {
    within = ground (arith, on, part, length-append st.buf a);
    room = ground (arith, on, fit.room);
    small = fit.small;
  }

  payload_round_part : payload_round host a st app ≡ again [] (holding a st) app
  unfolding payload_round payload_need
  payload_round_part =
      let all : taken a st ≡ length a = ground (
        arith,
        sub64_exact (payload_need st) (length st.buf),
        payload_need_cap st,
        fit.small,
        part,
      ) in
      let front : take (taken a st) a ≡ a = take_all _ a (omega (arith, all)) in
      let behind : drop (taken a st) a ≡ [] = drop_all _ a (omega (arith, all)) in
      let some_need : (payload_need st == 0) ≡ false = ground (arith, part) in
      let not_full : (length (st.buf ++ a) == payload_need st) ≡ false =
        ground (arith, part, length-append st.buf a) in
      rw (front, behind, some_need, not_full) refl

  -- A frame's payload may be cut between two calls: on a stream behind its header, in length framing
  -- and with a buffer that fits, if the bytes of the first call end before the payload does and
  -- neither call is without bytes, the loop of the first answers 0 with its bytes added to the buffer
  -- and nothing else changed, and the loop of the second answers and leaves what one call with all
  -- the bytes does, whatever comes behind the payload.
  pub payload_cut :
      st.header_ok ≡ true
      → 0 < length a
      → 0 < length b
      → (stream_loop host (3 * length a + 3) a st app ≡ some (pos 0, holding a st, app))
        × (stream_loop host (3 * length b + 3) b (holding a st) app
            ≡ stream_loop host (3 * length (a ++ b) + 3) (a ++ b) st app)
  unfolding stream_loop
  payload_cut opened some_a some_b =
      let st1 = holding a st in
      let first : stream_loop host (suc (suc zero)) a st app ≡ some (pos 0, st1, app) =
        one_round host (suc zero) a [] st st1 app app some_a
          (stream_round-framed host a st app opened on ∙ payload_round_part) in
      let (ret, st', app', e, fits) = stream_loop_ends host b st1 app holding-IsFit in
      let size = length-append a b in
      let n = 3 * length (a ++ b) + 2 in
      let next : 3 * length (a ++ b) + 3 ≡ suc n = omega arith in
      let second : stream_loop host (suc n) b st1 app ≡ some (ret, st', app') =
        more_rounds host (suc n) (3 * length b + 3) b st1 app (ret, st', app') (omega (arith, size))
          e in
      let one : stream_loop host (suc n) (a ++ b) st app ≡ stream_loop host (suc n) b st1 app =
        same_round host n (a ++ b) b st st1 app (omega (arith, size, some_a)) some_b (
          stream_round-framed host (a ++ b) st app opened on
          ∙ payload_round_cut
          ∙ sym (stream_round-framed host b st1 app opened on)) in
      (
        more_rounds host (3 * length a + 3) (suc (suc zero)) a st app (pos 0, st1, app)
            (omega arith) first,
        e ∙ sym second ∙ sym one ∙ ap (λ (k : ℕ). stream_loop host k (a ++ b) st app) (sym next),
      )
