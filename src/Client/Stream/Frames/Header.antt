-- ===== src/Client/Stream/Frames/Header.antt =====
-- A new WebTransport stream at `wt_handle_stream_data` of client/wt_client.c: its header, and the
-- frames behind it.
use m_quic.Prelude.{
  ℕ, suc, ◌+◌, ◌*◌, ◌<◌, ◌^◌, ◌≡◌, refl, ◌∙◌, sym, ap, arith, ◌==◌, if-true, true, false, not, ℤ,
  pos,
}
use m_quic.Prelude.{
  List, [], ◌∷◌, ◌++◌, length, drop, All, Option, none, some, length-append, append_assoc,
  drop-append,
}
use m_quic.Varint.{wt_varint_decode}
use m_quic.Varint.Encode.{varint, varint_size, length-varint}
use m_quic.Varint.RoundTrip.{wt_varint_decode-varint}
use m_quic.Client.Stream.{
  Host, WtStream, App, again, find_stream, put_stream, get_stream, check_header, header_round,
  stream_round, stream_loop, wt_handle_stream_data, initial_cap,
}
use m_quic.Client.Stream.Rank.{opened}
use m_quic.Client.Stream.Frames.{IsFrame, wires, length-wires, Grants, HasSaved}
use m_quic.Client.Stream.Frames.Rounds.{one_round}
use m_quic.Client.Stream.Frames.Saves.{loop_saves}

-- What opens a WebTransport stream of a session: the stream's type and the session's stream.
abbrev pub header : ℕ → List ℕ
header control = varint 0x54 ++ varint control

module _ {D : Type 0} (host : Host D) where
  header_round_whole :
      (control : ℕ) (rest : List ℕ) (st : WtStream) (app : App D)
      → control < 2 ^ 62
      → app.session_ctrl_id ≡ control
      → header_round host (header control ++ rest) st app ≡ again rest (opened st) app
  unfolding header_round check_header
  header_round_whole control rest st app small mine =
      let all = header control ++ rest in
      let behind = varint control ++ rest in
      let split : all ≡ varint 0x54 ++ behind = append_assoc (varint 0x54) (varint control) rest in
      let type : wt_varint_decode all ≡ some (0x54, 2) =
        ap wt_varint_decode split ∙ wt_varint_decode-varint 0x54 behind (omega arith) in
      let past_type : drop 2 all ≡ behind =
        ap (λ (l : List ℕ). drop 2 l) split
        ∙ drop-append 2 (varint 0x54) behind (sym (length-varint 0x54)) in
      let session : wt_varint_decode behind ≡ some (control, varint_size control) =
        ground (arith, wt_varint_decode-varint control rest) in
      let past_both : drop (2 + varint_size control) all ≡ rest =
        drop-append (2 + varint_size control) (header control) rest (
          omega (
            arith,
            length-append (varint 0x54) (varint control),
            length-varint control,
            length-varint 0x54,
          )) in
      let same : (control == app.session_ctrl_id) ≡ true = ground (arith, mine) in
      rw (type, past_type, session, past_both, same, header_round) refl

  -- `get_stream` for a stream that is new.
  abbrev new_stream : ℕ → WtStream
  new_stream sid = record {
    stream_id = sid;
    cap = initial_cap;
    buf = [];
    header_ok = false;
    cur_len = 0;
    pts_len = 0;
    use_len_framing = false;
  }

  get_stream_new :
      (sid : ℕ) (app : App D)
      → Grants host
      → find_stream app.streams sid ≡ none
      → (d : D) × (get_stream host sid app ≡ (
        some (new_stream sid),
        record app { disk = d; streams = new_stream sid ∷ app.streams },
      ))
  unfolding get_stream
  get_stream_new sid app ok new =
      let d1 = (host.alloc 64 app.disk).1 in
      (
        (host.alloc initial_cap d1).1,
        rw (new, ok.memory 64 app.disk, ok.memory initial_cap d1, get_stream) refl,
      )

  handle_new :
      (sid : ℕ) (bytes : List ℕ) (st st' : WtStream) (app app1 app' : App D) (ret : ℤ)
      → get_stream host sid app ≡ (some st, app1)
      → stream_loop host (3 * length bytes + 3) bytes st app1 ≡ some (ret, st', app')
      → wt_handle_stream_data host sid bytes app
        ≡ some (ret, record app' { streams = put_stream st' app'.streams })
  unfolding wt_handle_stream_data
  handle_new sid bytes st st' app app1 app' ret got e =
      let same : (get_stream host sid app).1 ≡ app1 =
        ap (λ (x : Option WtStream × App D). x.1) got in
      rw (got, same, e, wt_handle_stream_data) refl

  header_step :
      (m n control : ℕ) (rest : List ℕ) (st : WtStream) (app : App D)
      → m ≡ suc n
      → control < 2 ^ 62
      → app.session_ctrl_id ≡ control
      → st.header_ok ≡ false
      → stream_loop host m (header control ++ rest) st app ≡ stream_loop host n rest (opened st) app
  unfolding stream_round
  header_step m n control rest st app next small mine closed =
      let no_header : not st.header_ok ≡ true = ground (arith, closed) in
      let bytes = header control ++ rest in
      ap (λ (k : ℕ). stream_loop host k bytes st app) next
      ∙ one_round host n bytes rest st (opened st) app app
          (omega (
            arith,
            length-append (header control) rest,
            length-append (varint 0x54) (varint control),
            length-varint 0x54,
          ))
          (if-true _ _ no_header ∙ header_round_whole control rest st app small mine)

  -- A stream of the session that is new, with its header and the frames behind it.
  pub new_stream_saves :
      (sid control : ℕ) (gs : List (List ℕ)) (app : App D)
      → Grants host
      → All IsFrame gs
      → control < 2 ^ 62
      → app.session_ctrl_id ≡ control
      → find_stream app.streams sid ≡ none
      → app.max_frames ≡ 0
      → (app' : App D) × (wt_handle_stream_data host sid (header control ++ wires gs) app
          ≡ some (pos 0, app'))
        × HasSaved host gs app app'
  new_stream_saves sid control gs app ok frames small mine new no_limit =
      let bytes = header control ++ wires gs in
      let (d, got) = get_stream_new sid app ok new in
      let app1 : App D = record app { disk = d; streams = new_stream sid ∷ app.streams } in
      let (st', app', e, bt', saves) =
        loop_saves host (3 * length bytes + 2) gs (opened (new_stream sid)) app1 ok frames
          (record { opened = refl; no_length = refl }) no_limit
          (omega (arith, length-wires gs frames, length-append (header control) (wires gs))) in
      (
        record app' { streams = put_stream st' app'.streams },
        handle_new sid bytes (new_stream sid) st' app app1 app' (pos 0) got (
            header_step (3 * length bytes + 3) (3 * length bytes + 2) control (wires gs)
              (new_stream sid) app1 (omega arith) small mine refl
            ∙ e),
        record { wrote = saves.wrote; counted = saves.counted; no_limit = saves.no_limit },
      )
