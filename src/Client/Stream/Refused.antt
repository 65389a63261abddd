-- ===== src/Client/Stream/Refused.antt =====
-- A frame whose `realloc` is refused, in `wt_handle_stream_data` of client/wt_client.c.
use m_quic.Prelude.{
  ℕ, zero, suc, ◌+◌, ◌*◌, ◌<◌, ◌≤◌, ◌≡◌, refl, ◌∙◌, arith, ltb, ◌==◌, if-false, true, false,
}
use m_quic.Prelude.{
  pos, minus_one, List, [], ◌++◌, length, take, drop, none, some, length-append, take_all, drop_all,
}
use m_quic.Varint.{wt_varint_decode}
use m_quic.Varint.Encode.{varint}
use m_quic.Client.Stream.{Host, WtStream, App, payload_need, max_frame_len, done, again, grow}
use m_quic.Client.Stream.{start_frame, payload_round, stream_round, stream_loop}
use m_quic.Client.Stream.Rank.{taken, sub64_exact, payload_need_cap}
use m_quic.Client.Stream.Loop.{more_rounds, stream_round-framed}
use m_quic.Client.Stream.Frames.Rounds.{one_round, detect_round_whole}
use m_quic.Client.Stream.Frames.Lost.{stream_round-detect}

short_stamp : (rest : List ℕ) → elim (wt_varint_decode rest) [ none ↦ 0 | some (dummy, c) ↦ c ] ≤ 8
unfolding wt_varint_decode
short_stamp rest = ground arith

module _ {D : Type 0} (host : Host D) where
  grow_refused :
      (need : ℕ) (st : WtStream) (app : App D)
      → st.cap < need
      → (host.alloc need app.disk).0 ≡ false
      → grow host need st app ≡ (false, st, record app { disk = (host.alloc need app.disk).1 })
  unfolding grow
  grow_refused need st app low bad =
      let low' : ltb st.cap need ≡ true = ground arith in rw (low', bad) refl

  need_above : (st : WtStream) → st.cap + 8 < st.cur_len → st.pts_len ≤ 8 → st.cap < payload_need st
  unfolding payload_need
  need_above st big short = ground arith

  -- The stream as it waits for a frame of `fl` bytes, its time stamp included.
  abbrev pub awaiting : ℕ → List ℕ → WtStream → WtStream
  awaiting fl rest st = record st {
    cur_len = fl;
    buf = [];
    pts_len = elim (wt_varint_decode rest) [ none ↦ 0 | some (dummy, c) ↦ c ];
    use_len_framing = true;
  }

  start_frame_refused :
      (fl : ℕ) (rest : List ℕ) (st : WtStream) (app : App D)
      → st.cap + 8 < fl
      → (host.alloc (payload_need (awaiting fl rest st)) app.disk).0 ≡ false
      → start_frame host fl rest st app
        ≡ done minus_one
            (awaiting fl rest st)
            (record app { disk = (host.alloc (payload_need (awaiting fl rest st)) app.disk).1 })
  unfolding start_frame
  start_frame_refused fl rest st app big refused =
      let st1 = awaiting fl rest st in
      rw (grow_refused (payload_need st1) st1 app (need_above st1 big (short_stamp rest)) refused)
        refl

  overfill :
      (bytes : List ℕ) (st : WtStream) (app : App D)
      → st.buf ≡ []
      → st.cur_len ≤ max_frame_len
      → length bytes < payload_need st
      → payload_round host bytes st app ≡ again [] (record st { buf = bytes }) app
  unfolding payload_round payload_need
  overfill bytes st app empty small part =
      let all : taken bytes st ≡ length bytes = ground (
        arith,
        sub64_exact (payload_need st) (length st.buf),
        payload_need_cap st,
        small,
        part,
        empty,
      ) in
      let front : take (taken bytes st) bytes ≡ bytes = take_all _ bytes (omega (arith, all)) in
      let behind : drop (taken bytes st) bytes ≡ [] = drop_all _ bytes (omega (arith, all)) in
      let some_need : (payload_need st == 0) ≡ false = ground (arith, part) in
      let not_full : (length bytes == payload_need st) ≡ false = ground (arith, part) in
      rw (front, behind, some_need, empty, not_full) refl

  -- On a stream behind its header, outside length framing and with no frame begun, bytes come that
  -- begin with the length of a frame, written in the shortest way, and go on for nine bytes or more;
  -- the frame has at most 32 MB and is more than eight bytes over the buffer's capacity. If the memory
  -- for it is refused, the loop of the handler answers -1 and saves nothing, but leaves the stream
  -- waiting for the payload of that frame with the old capacity. The next call on the stream, with
  -- more bytes than the capacity and fewer than the payload, answers 0 and copies all of them into
  -- the buffer, beyond its capacity.
  pub refused_growth :
      (fl : ℕ) (rest bytes : List ℕ) (st : WtStream) (app : App D)
      → st.header_ok ≡ true
      → st.use_len_framing ≡ false
      → st.cur_len ≡ 0
      → st.cap + 8 < fl
      → fl ≤ max_frame_len
      → 8 < length rest
      → (host.alloc (payload_need (awaiting fl rest st)) app.disk).0 ≡ false
      → st.cap < length bytes
      → length bytes < payload_need (awaiting fl rest st)
      → (app' : App D) × (app'.files ≡ app.files)
        × (stream_loop host (3 * length (varint fl ++ rest) + 3) (varint fl ++ rest) st app
            ≡ some (minus_one, awaiting fl rest st, app'))
        × (st' : WtStream) × (stream_loop host
              (3 * length bytes + 3)
              bytes
              (awaiting fl rest st)
              app'
            ≡ some (pos 0, st', app'))
        × (st'.buf ≡ bytes)
        × (st'.cap ≡ st.cap)
        × (st'.cap < length st'.buf)
  unfolding stream_loop
  refused_growth fl rest bytes st app opened off no_length big small more refused over part =
      let st1 = awaiting fl rest st in
      let app1 = record app { disk = (host.alloc (payload_need st1) app.disk).1 } in
      let st2 = record st1 { buf = bytes } in
      let all = varint fl ++ rest in
      let first : stream_round host all st app ≡ done minus_one st1 app1 =
        stream_round-detect host all st app opened off no_length
        ∙ detect_round_whole host fl rest st app (omega (arith, big)) small more
        ∙ start_frame_refused fl rest st app big refused in
      let some_bytes : (length all == 0) ≡ false = ground (arith, length-append (varint fl) rest) in
      let one : stream_loop host (suc zero) all st app ≡ some (minus_one, st1, app1) =
        if-false _ _ some_bytes ∙ rw first refl in
      let two : stream_loop host (suc (suc zero)) bytes st1 app1 ≡ some (pos 0, st2, app1) =
        one_round host (suc zero) bytes [] st1 st2 app1 app1 (omega (arith, over)) (
          stream_round-framed host bytes st1 app1 opened refl
          ∙ overfill bytes st1 app1 refl small part) in
      (
        app1,
        refl,
        more_rounds host (3 * length all + 3) (suc zero) all st app (minus_one, st1, app1)
            (omega arith) one,
        st2,
        more_rounds host (3 * length bytes + 3) (suc (suc zero)) bytes st1 app1 (pos 0, st2, app1)
            (omega arith) two,
        refl,
        refl,
        over,
      )
