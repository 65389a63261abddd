-- ===== src/Client/Stream/Frames/Saves.antt =====
-- What `wt_handle_stream_data` of client/wt_client.c saves of whole frames that arrive together.
use m_quic.Prelude.{
  ℕ, zero, suc, ◌+◌, ◌*◌, ◌<◌, ◌≡◌, refl, ◌∙◌, sym, ap, arith, false, inl, inr, ℤ, pos,
}
use m_quic.Prelude.{List, [], ◌∷◌, length, All, Option, some, Bool-cases, append-nil}
use m_quic.Client.Stream.{
  Host, WtStream, find_stream, put_stream, get_stream, wt_handle_stream_data, App, save_frame,
  stream_loop,
}
use m_quic.Client.Stream.Frames.{length-wires, body, IsFrame, IsBetween, wires, Grants, HasSaved}
use m_quic.Client.Stream.Frames.Rounds.{
  save_frame_unlimited, HasSaved-cons, frame_step, leave_step, behind,
}

module _ {D : Type 0} (host : Host D) where
  -- The loop came to an end between two frames and saved these.
  abbrev pub Saved : List (List ℕ) → App D → Option (ℤ × WtStream × App D) → Type 0
  Saved gs app o =
      (st' : WtStream) × (app' : App D) × (o ≡ some (pos 0, st', app'))
      × IsBetween st'
      × HasSaved host gs app app'

  -- What is left for the frames behind the next one.
  Saved-cons :
      (n : ℕ) (g : List ℕ) (gs : List (List ℕ)) (st : WtStream) (app : App D)
      → Grants host
      → IsFrame g
      → IsBetween st
      → st.use_len_framing ≡ false
      → app.max_frames ≡ 0
      → ((st1 : WtStream) (app1 : App D)
          → IsBetween st1
          → app1.max_frames ≡ 0
          → Saved gs app1 (stream_loop host n (wires gs) st1 app1))
      → Saved (g ∷ gs) app (stream_loop host (suc n) (wires (g ∷ gs)) st app)
  unfolding wires
  Saved-cons n g gs st app ok frame bt off no_limit later =
      let (c, d, e) = frame_step host n g (wires gs) st app ok frame bt off no_limit in
      let (st', app', e', bt', saves) =
        later (behind host c st) (save_frame host (body g) (record app { disk = d }))
          (record { opened = bt.opened; no_length = refl })
          (save_frame_unlimited host (body g) (record app { disk = d }) no_limit) in
      (st', app', e ∙ e', bt', HasSaved-cons host g gs d app app' ok saves)

  pub loop_saves :
      (n : ℕ) (gs : List (List ℕ)) (st : WtStream) (app : App D)
      → Grants host
      → All IsFrame gs
      → IsBetween st
      → app.max_frames ≡ 0
      → 2 * length gs < n
      → Saved gs app (stream_loop host n (wires gs) st app)
  unfolding wires stream_loop
  loop_saves zero gs st app ok frames bt no_limit h = absurd (omega arith)
  loop_saves (suc n) [] st app ok frames bt no_limit h = (
    st,
    app,
    refl,
    bt,
    record { wrote = sym (append-nil app.files); counted = omega arith; no_limit = no_limit },
  )
  loop_saves (suc zero) (g ∷ gs) st app ok frames bt no_limit h = absurd (omega arith)
  loop_saves (suc (suc n)) (g ∷ gs) st app ok frames bt no_limit h =
      elim (Bool-cases st.use_len_framing) [
        | inl on ↦
            let off : WtStream = record st { use_len_framing = false } in
            let between : IsBetween off = record { opened = bt.opened; no_length = bt.no_length } in
            let (st', app', e, bt', saves) =
              Saved-cons n g gs off app ok frames.0 between refl no_limit
                (λ st1 app1 bt1 h1. loop_saves n gs st1 app1 ok frames.1 bt1 h1 (omega arith)) in
            let some_bytes : 0 < length (wires (g ∷ gs)) =
              omega (arith, length-wires (g ∷ gs) frames) in
            (
              st',
              app',
              leave_step host (suc n) (wires (g ∷ gs)) st app some_bytes bt on ∙ e,
              bt',
              saves,
            )
        | inr off ↦
            Saved-cons (suc n) g gs st app ok frames.0 bt off no_limit
              (λ st1 app1 bt1 h1. loop_saves (suc n) gs st1 app1 ok frames.1 bt1 h1 (omega arith))
      ]

  get_stream_found :
      (sid : ℕ) (st : WtStream) (app : App D)
      → find_stream app.streams sid ≡ some st
      → get_stream host sid app ≡ (some st, app)
  unfolding get_stream
  get_stream_found sid st app found = rw (found, get_stream) refl

  handle_found :
      (sid : ℕ) (bytes : List ℕ) (st st' : WtStream) (app app' : App D) (ret : ℤ)
      → find_stream app.streams sid ≡ some st
      → stream_loop host (3 * length bytes + 3) bytes st app ≡ some (ret, st', app')
      → wt_handle_stream_data host sid bytes app
        ≡ some (ret, record app' { streams = put_stream st' app'.streams })
  unfolding wt_handle_stream_data
  handle_found sid bytes st st' app app' ret found e =
      let got = get_stream_found sid st app found in
      let same : (get_stream host sid app).1 ≡ app =
        ap (λ (x : Option WtStream × App D). x.1) got in
      rw (got, same, e, wt_handle_stream_data) refl

  -- Frames of more than eight bytes and at most 32 MB, each behind its length, that arrive together
  -- on a stream behind its header and between two frames, are all saved, in their order and under
  -- the next numbers, if the system gives memory and opens the files and no limit on the frames is
  -- set: of each frame the file has what is behind the integer of variable length that its first
  -- bytes make, whether that integer is a time stamp or not. The handler answers 0.
  pub frames_saved :
      (sid : ℕ) (gs : List (List ℕ)) (st : WtStream) (app : App D)
      → Grants host
      → All IsFrame gs
      → find_stream app.streams sid ≡ some st
      → IsBetween st
      → app.max_frames ≡ 0
      → (app' : App D) × (wt_handle_stream_data host sid (wires gs) app ≡ some (pos 0, app'))
        × HasSaved host gs app app'
  frames_saved sid gs st app ok frames found bt no_limit =
      let (st', app', e, bt', saves) =
        loop_saves (3 * length (wires gs) + 3) gs st app ok frames bt no_limit
          (omega (arith, length-wires gs frames)) in
      (
        record app' { streams = put_stream st' app'.streams },
        handle_found sid (wires gs) st st' app app' (pos 0) found e,
        record { wrote = saves.wrote; counted = saves.counted; no_limit = saves.no_limit },
      )
