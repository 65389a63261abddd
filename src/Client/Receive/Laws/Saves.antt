-- ===== src/Client/Receive/Laws/Saves.antt =====
-- What the client's callback, `client_cb` of client/client_main.c, has counted and saved of frames.
use m_quic.Prelude.{ℕ, ◌+◌, ◌≤◌, ◌≡◌, refl, ◌∙◌, arith, if◌then◌else◌, true}
use m_quic.Prelude.{
  List, [], ◌∷◌, ◌++◌, length, All, Option, some, append_assoc, append-nil, Bool-cases, inl, inr,
}
use m_quic.Client.Stream.{Host}
use m_quic.Client.Receive.{Receiver, begin_frame, end_frame}
use m_quic.Client.Receive.Laws.{Decodes, IsFrame, after_frames}
use m_quic.Client.Receive.Laws.Rounds.{Stands, finished}
use m_quic.Client.Receive.Laws.Chunks.{Cuts, receive_all, receive_all-frames}

-- The files of frames, numbered behind `k` frames that were counted before.
abbrev pub numbered : ℕ → List (List ℕ) → List (ℕ × List ℕ)
numbered k [] = []
numbered k (f ∷ fs) = (k + 1, f) ∷ numbered (k + 1) fs

-- The frame of which `r` is still to come, with what has been received of it.
abbrev pub pending : {D : Type 0} → List ℕ → Receiver D → List (List ℕ)
pending [] app = []
pending (b ∷ r) app = (app.received ++ (b ∷ r)) ∷ []

-- From `app` to `app'` the frames were counted and, if a directory is named, saved as files.
pub record Took {D : Type 0} (fs : List (List ℕ)) (app app' : Receiver D) : Type 0 where
  pub counted : app'.frame_count ≡ app.frame_count + length fs
  pub saved :
      app'.files ≡ (if app.has_out_dir then app.files ++ numbered app.frame_count fs else app.files)
  pub directory : app'.has_out_dir ≡ app.has_out_dir

module _ {D : Type 0} (decode : List ℕ → Option (ℕ × ℕ)) (decodes : Decodes decode) (host : Host D)
    (grants : (n : ℕ) (d : D) → (host.alloc n d).0 ≡ true)
    (opens : (n : ℕ) (d : D) → (host.fopen n d).0 ≡ true) where
  Took-end_frame : (app : Receiver D) → Took (app.received ∷ []) app (end_frame decode host app)
  unfolding end_frame
  Took-end_frame app = record {
    counted = ground arith;
    saved = ground (arith, opens (app.frame_count + 1) app.disk);
    directory = ground arith;
  }

  Took-cons :
      (f : List ℕ) (fs : List (List ℕ)) (a b c : Receiver D)
      → Took (f ∷ []) a b
      → Took fs b c
      → Took (f ∷ fs) a c
  Took-cons f fs a b c first second = record {
    counted = omega (arith, first.counted, second.counted);
    saved = elim (Bool-cases a.has_out_dir) [
      | inl on ↦ ground (
        arith,
        on,
        first.saved,
        first.counted,
        first.directory,
        second.saved,
        append_assoc a.files ((a.frame_count + 1, f) ∷ []) (numbered (a.frame_count + 1) fs),
      )
      | inr off ↦ ground (arith, off, first.saved, first.directory, second.saved)
    ];
    directory = second.directory ∙ first.directory;
  }

  -- A frame that is begun is counted and saved like any other.
  Took-begun :
      (f : List ℕ) (app : Receiver D)
      → Took
          (f ∷ [])
          app
          (end_frame decode host (record (begin_frame decode host (length f) app) { received = f }))
  unfolding begin_frame
  Took-begun f app =
      let begun = record (begin_frame decode host (length f) app) { received = f } in
      let whole = Took-end_frame begun in
      record {
        counted = ground (arith, whole.counted);
        saved = ground (arith, whole.saved);
        directory = ground (arith, whole.directory);
      }

  Took-frames :
      (fs : List (List ℕ)) (app : Receiver D)
      → Took fs app (after_frames decode decodes host grants fs app)
  Took-frames [] app = record {
    counted = omega arith;
    saved = elim (Bool-cases app.has_out_dir) [
      | inl on ↦ ground (arith, on, append-nil app.files)
      | inr off ↦ ground (arith, off)
    ];
    directory = refl;
  }
  Took-frames (f ∷ fs) app = Took-cons f fs app _ _ (Took-begun f app) (Took-frames fs _)

  Took-pending :
      (r : List ℕ) (fs : List (List ℕ)) (app : Receiver D)
      → Took
          (pending r app ++ fs)
          app
          (after_frames decode decodes host grants fs (finished decode decodes host grants r app))
  Took-pending [] fs app = Took-frames fs app
  Took-pending (b ∷ r) fs app =
      let last : Receiver D = record app { received = app.received ++ (b ∷ r) } in
      let whole = Took-end_frame last in
      Took-cons (app.received ++ (b ∷ r)) fs app _ _
        (record { counted = whole.counted; saved = whole.saved; directory = whole.directory })
        (Took-frames fs _)

  -- Where memory is always given and every file opens, the stream data of whole frames of between
  -- one and 2^62 - 1 bytes may come in chunks that are cut anywhere but in a frame's length: the
  -- calls return, and the number of frames has grown by these frames and by the one that was begun
  -- and is completed. If a directory is named, each of them is saved as a file, in order and byte for
  -- byte and under the next numbers; if none is named, no file is written. Two rounds more than
  -- there are frames are enough for each chunk.
  pub receive_all_saves :
      {r : List ℕ} {fs cs : List (List ℕ)} (n : ℕ) (app : Receiver D)
      → Cuts r fs cs
      → Stands decode decodes host grants r app
      → All IsFrame fs
      → length fs + 2 ≤ n
      → (app' : Receiver D) × (receive_all decode decodes host grants n cs app ≡ some app')
        × Took (pending r app ++ fs) app app'
  receive_all_saves {r} {fs} n app cuts stands frames enough = (
    after_frames decode decodes host grants fs (finished decode decodes host grants r app),
    receive_all-frames decode decodes host grants n app cuts stands frames enough,
    Took-pending r fs app,
  )
