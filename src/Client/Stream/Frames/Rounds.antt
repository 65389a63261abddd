-- ===== src/Client/Stream/Frames/Rounds.antt =====
-- The rounds of `wt_handle_stream_data` of client/wt_client.c that take one whole frame.
use m_quic.Prelude.{
  ℕ, suc, ◌+◌, ◌/◌, ◌^◌, ◌<◌, ◌≤◌, ◌≡◌, refl, ◌∙◌, sym, arith, ltb, ◌==◌, if-true, if-false, true,
  false, not, ◌&&◌, ◌||◌, inl, inr, bit_and,
}
use m_quic.Prelude.{
  List, [], ◌∷◌, ◌++◌, length, take, drop, get_or, some, Bool-cases, length-append, append_assoc,
  take-append, drop-append,
}
use m_quic.Varint.{wt_varint_decode}
use m_quic.Varint.Encode.{varint, varint_size, length-varint}
use m_quic.Varint.RoundTrip.{wt_varint_decode-varint}
use m_quic.Client.Stream.Rank.{taken}
use m_quic.Client.Stream.{
  Host, WtStream, App, again, payload_need, max_frame_len, save_frame, grow, payload_round,
  start_frame, take_length, detect_round, stream_round, stream_loop,
}
use m_quic.Client.Stream.Frames.{
  stamp_size, body, bodies, IsFrame, IsBetween, stamp_size-append, stamp_size_le, first_byte,
  need_len_le, length-body, body-append, need_size, Grants, HasSaved,
}

module _ {D : Type 0} (host : Host D) where
  payload_whole :
      (p more : List ℕ) (st : WtStream) (app : App D)
      → st.buf ≡ []
      → payload_need st ≡ length p
      → 0 < length p
      → length p ≤ max_frame_len
      → (save_frame host p app).max_frames ≡ 0
      → payload_round host (p ++ more) st app
        ≡ again more (record st { cur_len = 0; buf = []; pts_len = 0 }) (save_frame host p app)
  unfolding payload_round payload_need
  payload_whole p more st app empty need some_bytes small no_limit =
      let t : taken (p ++ more) st ≡ length p = ground (arith, empty, need, length-append p more) in
      let front : take (taken (p ++ more) st) (p ++ more) ≡ p = take-append _ p more t in
      let behind : drop (taken (p ++ more) st) (p ++ more) ≡ more = drop-append _ p more t in
      let not_empty : (length p == 0) ≡ false = ground arith in
      let all : (length p == length p) ≡ true = ground arith in
      rw (front, behind, empty, need, not_empty, all, no_limit) refl

  pub save_frame_unlimited :
      (p : List ℕ) (app : App D) → app.max_frames ≡ 0 → (save_frame host p app).max_frames ≡ 0
  unfolding save_frame
  save_frame_unlimited p app h = ground (arith, h)

  grow_granted :
      (need : ℕ) (st : WtStream) (app : App D)
      → Grants host
      → (c : ℕ) × (d : D) × (grow host need st app
          ≡ (true, record st { cap = c }, record app { disk = d }))
  unfolding grow
  grow_granted need st app ok = elim (Bool-cases (ltb st.cap need)) [
    | inl low ↦ (need, (host.alloc need app.disk).1, rw (low, ok.memory need app.disk) refl)
    | inr big ↦ (st.cap, app.disk, rw big refl)
  ]

  -- The stream behind a frame.
  abbrev pub behind : ℕ → WtStream → WtStream
  behind c st = record st { cap = c; cur_len = 0; buf = []; pts_len = 0; use_len_framing = true }

  start_frame_whole :
      (g more : List ℕ) (st : WtStream) (app : App D)
      → Grants host
      → IsFrame g
      → app.max_frames ≡ 0
      → (c : ℕ) × (d : D) × (start_frame host (length g) (g ++ more) st app
          ≡ again more (behind c st) (save_frame host (body g) (record app { disk = d })))
  unfolding start_frame
  start_frame_whole g more st app ok frame no_limit =
      let k = stamp_size g in
      let st1 : WtStream = record st {
        cur_len = length g;
        buf = [];
        pts_len = k;
        use_len_framing = true;
      } in
      let (c, d, grown) = grow_granted (payload_need st1) st1 app ok in
      let size = length-body g in
      let short = stamp_size_le g in
      let app1 : App D = record app { disk = d } in
      (
        c,
        d,
        rw (stamp_size-append g more frame.0, body-append g more frame.0, grown)
            (payload_whole (body g) more (record st1 { cap = c }) app1 refl
              (need_size g (record st1 { cap = c }) frame refl refl)
              (omega (arith, size, short, frame)) (omega (arith, size, frame))
              (save_frame_unlimited (body g) app1 no_limit)),
      )

  pub detect_round_whole :
      (l : ℕ) (rest : List ℕ) (st : WtStream) (app : App D)
      → 0 < l
      → l ≤ max_frame_len
      → 8 < length rest
      → detect_round host (varint l ++ rest) st app ≡ start_frame host l rest st app
  unfolding detect_round take_length
  detect_round_whole l rest st app some_bytes small more =
      let all = varint l ++ rest in
      let enough : ltb (length all) (2 ^ (bit_and (get_or all 0 0) 0xC0 / 2 ^ 6)) ≡ false =
        ground (
          arith,
          need_len_le (get_or all 0 0) (first_byte l rest),
          length-append (varint l) rest,
        ) in
      let read : wt_varint_decode all ≡ some (l, varint_size l) =
        ground (arith, wt_varint_decode-varint l rest) in
      let past : drop (varint_size l) all ≡ rest =
        drop-append (varint_size l) (varint l) rest (sym (length-varint l)) in
      let fine : (l == 0 || ltb max_frame_len l) ≡ false = ground arith in
      rw (enough, read, past, fine) refl

  leave_framing :
      (rest : List ℕ) (st : WtStream) (app : App D)
      → st.cur_len ≡ 0
      → payload_round host rest st app ≡ again rest (record st { use_len_framing = false }) app
  unfolding payload_round payload_need
  leave_framing rest st app nothing =
      let z : (payload_need st == 0) ≡ true = ground (arith, nothing) in if-true _ _ z

  pub HasSaved-cons :
      (g : List ℕ) (gs : List (List ℕ)) (d : D) (app app' : App D)
      → Grants host
      → HasSaved host gs (save_frame host (body g) (record app { disk = d })) app'
      → HasSaved host (g ∷ gs) app app'
  unfolding save_frame
  HasSaved-cons g gs d app app' ok later =
      let opened = ok.opens app.saved d in
      record {
        wrote =
            later.wrote
            ∙ rw opened
                (append_assoc app.files ((app.saved, body g) ∷ []) (bodies (app.saved + 1) gs));
        counted = later.counted ∙ ground (arith, opened);
        no_limit = later.no_limit;
      }

  pub one_round :
      (n : ℕ) (rest rest1 : List ℕ) (st st1 : WtStream) (app app1 : App D)
      → 0 < length rest
      → stream_round host rest st app ≡ again rest1 st1 app1
      → stream_loop host (suc n) rest st app ≡ stream_loop host n rest1 st1 app1
  unfolding stream_loop
  one_round n rest rest1 st st1 app app1 h e =
      let some_bytes : (length rest == 0) ≡ false = ground arith in rw (some_bytes, e) refl

  -- The loop at the next frame, without the length framing of the one before.
  pub frame_step :
      (n : ℕ) (g more : List ℕ) (st : WtStream) (app : App D)
      → Grants host
      → IsFrame g
      → IsBetween st
      → st.use_len_framing ≡ false
      → app.max_frames ≡ 0
      → (c : ℕ) × (d : D) × (stream_loop host (suc n) (varint (length g) ++ (g ++ more)) st app
          ≡ stream_loop host n more
              (behind c st)
              (save_frame host (body g) (record app { disk = d })))
  unfolding stream_round
  frame_step n g more st app ok frame bt off no_limit =
      let (c, d, e) = start_frame_whole g more st app ok frame no_limit in
      let bytes = varint (length g) ++ (g ++ more) in
      let past_header : not st.header_ok ≡ false = ground (arith, bt.opened) in
      let at_length : (not st.use_len_framing && st.cur_len == 0) ≡ true =
        ground (arith, off, bt.no_length) in
      let long = length-append g more in
      let found : stream_round host bytes st app
          ≡ again more (behind c st) (save_frame host (body g) (record app { disk = d })) =
        if-false _ _ past_header
        ∙ if-true _ _ at_length
        ∙ detect_round_whole (length g) (g ++ more) st app (omega (arith, frame)) frame.1
            (omega (arith, frame, long))
        ∙ e in
      let some_bytes : 0 < length bytes =
        omega (arith, frame, long, length-append (varint (length g)) (g ++ more)) in
      (c, d, one_round n bytes more st (behind c st) app _ some_bytes found)

  -- The loop behind a frame, before the next bytes.
  pub leave_step :
      (n : ℕ) (rest : List ℕ) (st : WtStream) (app : App D)
      → 0 < length rest
      → IsBetween st
      → st.use_len_framing ≡ true
      → stream_loop host (suc n) rest st app
        ≡ stream_loop host n rest (record st { use_len_framing = false }) app
  unfolding stream_round
  leave_step n rest st app h bt on =
      let past_header : not st.header_ok ≡ false = ground (arith, bt.opened) in
      let at_length : (not st.use_len_framing && st.cur_len == 0) ≡ false = ground (arith, on) in
      one_round n rest rest st (record st { use_len_framing = false }) app app h
        (if-false _ _ past_header
          ∙ if-false _ _ at_length
          ∙ if-true _ _ on
          ∙ leave_framing rest st app bt.no_length)
