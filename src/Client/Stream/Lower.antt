-- ===== src/Client/Stream/Lower.antt =====
-- Each round of the handler of stream data, client/wt_client.c, uses something up or ends the loop.
use m_quic.Prelude.{ℕ, ◌+◌, ◌*◌, ◌/◌, ◌^◌, ◌≤◌, ◌<◌, ◌≡◌, refl, ap, arith, ltb, ◌==◌, if◌then◌else◌}
use m_quic.Prelude.{
  true, false, not, ◌&&◌, ◌||◌, bit_and, pos, minus_one, ◌⊎◌, inl, inr, Bool-cases,
}
use m_quic.Prelude.{List, [], ◌++◌, length, drop, get_or, none, some, min}
use m_quic.Varint.{wt_varint_decode}
use m_quic.Client.Jpeg.{extract_jpegs}
use m_quic.Client.Stream.{
  Host, WtStream, App, payload_need, done, again, header_round, check_header, take_length,
}
use m_quic.Client.Stream.{
  max_frame_len, is_full, stop_running, save_frame, save_frames, grow, collect, payload_round,
  start_frame, detect_round, stream_round,
}
use m_quic.Client.Stream.Rank.{rank, Lower, Lower-if, Lower-option, decode_uses}
use m_quic.Client.Stream.Rank.{opened, fresh-IsFit, header_rank, taken}
use m_quic.Client.Stream.Rank.{filled, filled-IsFit}
use m_quic.Client.Stream.Rank.{
  between, between-IsFit, emptied-IsFit, emptied_rank, between-rank, rank-filled,
}
use m_quic.Client.Stream.Rank.{
  granted, collected, started, started-IsFit, rank-started, detect_rank,
}
use m_quic.Client.Stream.Rank.{IsFit, over, less}

module _ {D : Type 0} (host : Host D) where
  check_header-Lower :
      (m v sidv : ℕ) (rest : List ℕ) (st : WtStream) (app : App D)
      → rank rest (opened st) < m
      → Lower m (check_header host v sidv rest st app)
  unfolding check_header
  check_header-Lower m v sidv rest st app h =
      let no = done minus_one st app in
      let yes = again rest (opened st) app in
      Lower-if m (not (v == 0x54)) no (if not (sidv == app.session_ctrl_id) then no else yes)
        (λ _. over minus_one st app (inl refl))
        (λ _.
          Lower-if m (not (sidv == app.session_ctrl_id)) no yes
            (λ _. over minus_one st app (inl refl))
            (λ _. less rest (opened st) app h (fresh-IsFit st)))

  header_round-Lower :
      (rest : List ℕ) (st : WtStream) (app : App D)
      → IsFit st
      → 1 ≤ length rest
      → Lower (rank rest st) (header_round host rest st app)
  unfolding header_round
  header_round-Lower rest st app fit some_bytes =
      let m = rank rest st in
      let wait = done (pos 0) st app in
      Lower-option m (wt_varint_decode rest) wait
        (λ a. elim (wt_varint_decode (drop a.1 rest)) [
          | none ↦ wait
          | some b ↦ check_header host a.0 b.0 (drop (a.1 + b.1) rest) st app
        ])
        (over (pos 0) st app (inr fit))
        (λ a e.
          Lower-option m (wt_varint_decode (drop a.1 rest)) wait
            (λ b. check_header host a.0 b.0 (drop (a.1 + b.1) rest) st app)
            (over (pos 0) st app (inr fit))
            (λ b e2.
              check_header-Lower m a.0 b.0 (drop (a.1 + b.1) rest) st app
                (header_rank rest st a.1 b.1 (decode_uses rest a.0 a.1 e).0 some_bytes)))

  grow_cases :
      (need : ℕ) (st : WtStream) (app : App D)
      → (c : ℕ) × ((grow host need st app).1 ≡ record st { cap = c })
        × (st.cap ≤ c)
        × (((grow host need st app).0 ≡ false) ⊎ (need ≤ c))
  unfolding grow
  grow_cases need st app = elim (Bool-cases (ltb st.cap need)) [
    | inr big ↦ (st.cap, ground (arith, big), omega arith, inr (ground (arith, big)))
    | inl low ↦ elim (Bool-cases (host.alloc need app.disk).0) [
      | inl ok ↦ (need, ground (arith, low, ok), ground (arith, low), inr (omega arith))
      | inr bad ↦ (st.cap, ground (arith, low, bad), omega arith, inl (ground (arith, low, bad)))
    ]
  ]

  payload_round-Lower :
      (m : ℕ) (rest : List ℕ) (st : WtStream) (app : App D)
      → IsFit st
      → st.use_len_framing ≡ true
      → rank rest st < m + min 1 (length rest)
      → Lower m (payload_round host rest st app)
  unfolding payload_round
  payload_round-Lower m rest st app fit on h' =
      let h : rank rest st ≤ m = omega (arith, h') in
      let st1 = filled rest st in
      let rest1 = drop (taken rest st) rest in
      let app1 = save_frame host st1.buf app in
      let empty = again rest (record st { use_len_framing = false }) app in
      let stop = done (pos 0) st1 (stop_running host app1) in
      let next = again rest1 (record st1 { cur_len = 0; buf = []; pts_len = 0 }) app1 in
      let more = again rest1 st1 app in
      let saved = if is_full host app1 then stop else next in
      Lower-if m (payload_need st == 0) empty
        (if length st1.buf == payload_need st then saved else more)
        (λ z.
          less rest (record st { use_len_framing = false }) app (emptied_rank rest st fit on m z h)
            (emptied-IsFit rest st fit on z))
        (λ z.
          Lower-if m (length st1.buf == payload_need st) saved more
            (λ full.
              Lower-if m (is_full host app1) stop next
                (λ _. over (pos 0) st1 (stop_running host app1) (inr (filled-IsFit rest st fit on)))
                (λ _.
                  less rest1 (between rest st fit on) app1 (between-rank rest st fit on m z h)
                    (between-IsFit rest st fit on)))
            (λ part.
              less rest1 st1 app (rank-filled rest st fit on m z part h')
                (filled-IsFit rest st fit on)))

  collect-Lower :
      (m : ℕ) (chunk : List ℕ) (st : WtStream) (app : App D)
      → IsFit st
      → st.use_len_framing ≡ false
      → Lower m (collect host chunk st app)
  unfolding collect
  collect-Lower m chunk st app fit off =
      let (c, same, bigger, enough) = grow_cases (length st.buf + length chunk) st app in
      let need = length st.buf + length chunk in
      let g = grow host need st app in
      let found = extract_jpegs (g.1.buf ++ chunk) in
      let app2 = save_frames host found.0 g.2 in
      let app3 = if is_full host app2 then stop_running host app2 else app2 in
      let st2 = record g.1 { buf = found.1 } in
      Lower-if m g.0 (done (pos 0) st2 app3) (done minus_one g.1 g.2)
        (λ ok.
          over (pos 0) st2 app3
            (inr (collected st g.1 c chunk same off (granted g.0 _ ok enough) fit)))
        (λ _. over minus_one g.1 g.2 (inl refl))

  start_frame-Lower :
      (m fl : ℕ) (rest : List ℕ) (st : WtStream) (app : App D)
      → fl ≤ max_frame_len
      → 3 * length rest + 2 < m
      → Lower m (start_frame host fl rest st app)
  unfolding start_frame
  start_frame-Lower m fl rest st app small h =
      let c2 : ℕ = elim (wt_varint_decode rest) [ none ↦ 0 | some (dummy, c) ↦ c ] in
      let st1 = started fl c2 st in
      let g = grow host (payload_need st1) st1 app in
      let (c, same, bigger, enough) = grow_cases (payload_need st1) st1 app in
      Lower-if m g.0 (payload_round host (drop c2 rest) g.1 g.2) (done minus_one g.1 g.2)
        (λ ok.
          let le = granted g.0 _ ok enough in
          payload_round-Lower m (drop c2 rest) g.1 g.2 (started-IsFit fl c2 st g.1 c same le small)
            (ap (λ (x : WtStream). x.use_len_framing) same)
            (rank-started m fl c2 rest st g.1 c same h))
        (λ _. over minus_one g.1 g.2 (inl refl))

  detect_round-Lower :
      (rest : List ℕ) (st : WtStream) (app : App D)
      → IsFit st
      → st.use_len_framing ≡ false
      → 1 ≤ length rest
      → Lower (rank rest st) (detect_round host rest st app)
  unfolding detect_round take_length
  detect_round-Lower rest st app fit off some_bytes =
      let m = rank rest st in
      let wait = done (pos 0) st app in
      let need_len = 2 ^ (bit_and (get_or rest 0 0) 0xC0 / 2 ^ 6) in
      let go = λ (a : ℕ × ℕ). take_length host a.0 rest (drop a.1 rest) st app in
      Lower-if m (ltb (length rest) need_len) wait
        (elim (wt_varint_decode rest) [ none ↦ wait | some a ↦ go a ])
        (λ _. over (pos 0) st app (inr fit))
        (λ _. Lower-option m (wt_varint_decode rest) wait go (over (pos 0) st app (inr fit)) (λ a e.
          Lower-if m (a.0 == 0 || ltb max_frame_len a.0) (collect host rest st app)
            (start_frame host a.0 (drop a.1 rest) st app) (λ _. collect-Lower m rest st app fit off)
            (λ ok.
              start_frame-Lower m a.0 (drop a.1 rest) st app (ground (arith, ok))
                (detect_rank rest st a.1 off (decode_uses rest a.0 a.1 e) some_bytes))))

  pub stream_round-Lower :
      (rest : List ℕ) (st : WtStream) (app : App D)
      → IsFit st
      → 1 ≤ length rest
      → Lower (rank rest st) (stream_round host rest st app)
  unfolding stream_round
  stream_round-Lower rest st app fit some_bytes =
      let m = rank rest st in
      let header = header_round host rest st app in
      let detect = detect_round host rest st app in
      let payload = payload_round host rest st app in
      let all = collect host rest st app in
      let framed = if st.use_len_framing then payload else all in
      let first = not st.use_len_framing && st.cur_len == 0 in
      Lower-if m (not st.header_ok) header (if first then detect else framed)
        (λ _. header_round-Lower rest st app fit some_bytes)
        (λ _.
          Lower-if m first detect framed
            (λ f. detect_round-Lower rest st app fit (ground (arith, f)) some_bytes)
            (λ _.
              Lower-if m st.use_len_framing payload all
                (λ on. payload_round-Lower m rest st app fit on (omega arith))
                (λ off. collect-Lower m rest st app fit off)))
