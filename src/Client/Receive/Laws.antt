-- ===== src/Client/Receive/Laws.antt =====
-- What the client's callback makes of frames, and when it never returns.
pub mod Rounds
pub mod Chunks
pub mod Saves
use m_quic.Prelude.{
  inl, ℕ, zero, suc, ◌+◌, ◌^◌, ◌<◌, ◌≡◌, refl, ◌∙◌, sym, ap, arith, ltb, ◌==◌, if◌then◌else◌,
}
use m_quic.Prelude.{
  true, false, ◌&&◌, ◌⊎◌, List, [], ◌∷◌, ◌++◌, length, take, drop, All, Option, none, some,
}
use m_quic.Prelude.{length-append, take-append, drop-append, append_assoc}
use m_quic.Varint.Encode.{varint, varint_size, length-varint}
use m_quic.Client.Stream.{Host, sub64}
use m_quic.Client.Receive.{
  Receiver, go, begin_frame, end_frame, copy_payload, receive_round, receive_loop,
}

-- picoquic's decoder reads what RFC 9000 writes, whatever follows.
abbrev pub Decodes : (List ℕ → Option (ℕ × ℕ)) → Type 0
Decodes decode =
    (v : ℕ) (rest : List ℕ) → v < 2 ^ 62 → decode (varint v ++ rest) ≡ some (v, varint_size v)

-- A frame on the wire: its length and its bytes.
abbrev pub wire : List ℕ → List ℕ
wire f = varint (length f) ++ f

abbrev pub wires : List (List ℕ) → List ℕ
wires [] = []
wires (f ∷ fs) = wire f ++ wires fs

-- A frame that is not empty, and shorter than 2^62 bytes.
abbrev pub IsFrame : List ℕ → Type 0
IsFrame f = (0 < length f) × (length f < 2 ^ 62)

-- Between two frames, with a buffer or, as at the start, with none and a size of 0 for it.
pub record IsIdle {D : Type 0} (app : Receiver D) : Type 0 where
  pub no_frame : app.frame_size ≡ 0
  pub buffer : (app.has_buffer ≡ true) ⊎ (app.buffer_size ≡ 0)

module _ {D : Type 0} (decode : List ℕ → Option (ℕ × ℕ)) (decodes : Decodes decode) (host : Host D)
    (grants : (n : ℕ) (d : D) → (host.alloc n d).0 ≡ true) where
  -- What one whole frame does.
  abbrev after_frame : List ℕ → Receiver D → Receiver D
  after_frame f app =
      end_frame decode host (record (begin_frame decode host (length f) app) { received = f })

  begin_parts :
      (size : ℕ) (app : Receiver D)
      → 0 < size
      → (app.has_buffer ≡ true) ⊎ (app.buffer_size ≡ 0)
      → ((begin_frame decode host size app).frame_size ≡ size)
        × ((begin_frame decode host size app).received ≡ [])
        × ((begin_frame decode host size app).has_buffer ≡ true)
  unfolding begin_frame
  begin_parts size app some_bytes h = ground (arith, grants size app.disk)

  copy_step :
      (rest whole : List ℕ) (app : Receiver D) (n : ℕ)
      → (if ltb app.frame_size (length app.received + length rest)
          then sub64 app.frame_size (length app.received)
          else length rest)
        ≡ n
      → app.received ++ take n rest ≡ whole
      → 0 < app.frame_size
      → app.has_buffer ≡ true
      → length whole ≡ app.frame_size
      → copy_payload decode host rest app
        ≡ go (drop n rest) (end_frame decode host (record app { received = whole }))
  unfolding copy_payload
  copy_step rest whole app n en ew more buffer full =
      let some_frame : (ltb 0 app.frame_size && app.has_buffer) ≡ true = ground arith in
      let done : (length whole == app.frame_size) ≡ true = ground arith in
      rw (en, ew, some_frame, done) refl

  copy_whole :
      (f rest : List ℕ) (app : Receiver D)
      → IsFrame f
      → app.frame_size ≡ length f
      → app.received ≡ []
      → app.has_buffer ≡ true
      → copy_payload decode host (f ++ rest) app
        ≡ go rest (end_frame decode host (record app { received = f }))
  copy_whole f rest app v size none_yet buffer =
      let n : (if ltb app.frame_size (length app.received + length (f ++ rest))
            then sub64 app.frame_size (length app.received)
            else length (f ++ rest))
          ≡ length f =
        ground (arith, length-append f rest, ap (λ (l : List ℕ). length l) none_yet, size, v) in
      let whole : app.received ++ take (length f) (f ++ rest) ≡ f =
        rw none_yet (take-append (length f) f rest refl) in
      copy_step (f ++ rest) f app (length f) n whole (omega (arith, size, v.0)) buffer (sym size)
      ∙ ap (λ (l : List ℕ). go l (end_frame decode host (record app { received = f })))
          (drop-append (length f) f rest refl)

  round_frame :
      (f rest : List ℕ) (app : Receiver D)
      → IsFrame f
      → IsIdle app
      → receive_round decode host (wire f ++ rest) app ≡ go rest (after_frame f app)
  unfolding receive_round
  round_frame f rest app v idle =
      let size = length f in
      let none_yet : (app.frame_size == 0) ≡ true = ground (arith, idle.no_frame) in
      let read = decodes size (f ++ rest) v.1 in
      let behind =
        drop-append (varint_size size) (varint size) (f ++ rest) (sym (length-varint size)) in
      let flat = append_assoc (varint size) f rest in
      let (sized, empty, buffer) = begin_parts size app v.0 idle.buffer in
      rw (none_yet, flat, read, flat, behind)
        (copy_whole f rest (begin_frame decode host size app) v sized empty buffer)

  end_frame-IsIdle : (app : Receiver D) → app.has_buffer ≡ true → IsIdle (end_frame decode host app)
  unfolding end_frame
  end_frame-IsIdle app h = record { no_frame = ground arith; buffer = inl (ground (arith, h)) }

  -- What several frames do, one after the other.
  abbrev pub after_frames : List (List ℕ) → Receiver D → Receiver D
  after_frames [] app = app
  after_frames (f ∷ fs) app = after_frames fs (after_frame f app)

  wire_size : (f rest : List ℕ) → (length (wire f ++ rest) == 0) ≡ false
  wire_size f rest = ground (
    arith,
    length-append (wire f) rest,
    length-append (varint (length f)) f,
    length-varint (length f),
  )

spin_round :
    {D : Type 0} (decode : List ℕ → Option (ℕ × ℕ)) (host : Host D) (bytes : List ℕ)
    (app : Receiver D)
    → 0 < app.frame_size
    → app.has_buffer ≡ false
    → receive_round decode host bytes app ≡ go bytes app
unfolding receive_round copy_payload
spin_round decode host bytes app h2 h3 =
    let begun : (app.frame_size == 0) ≡ false = ground arith in
    let off : (ltb 0 app.frame_size && app.has_buffer) ≡ false = ground arith in
    rw (begun, off) refl

-- Without a buffer, as after a refused `malloc` or once the connection was closed, and with a frame
-- begun, the callback never returns on any bytes: no number of rounds is enough.
pub receive_loop_spins :
    {D : Type 0} (decode : List ℕ → Option (ℕ × ℕ)) (host : Host D) (n : ℕ) (bytes : List ℕ)
    (app : Receiver D)
    → 0 < length bytes
    → 0 < app.frame_size
    → app.has_buffer ≡ false
    → receive_loop decode host n bytes app ≡ none
unfolding receive_loop
receive_loop_spins decode host zero bytes app h1 h2 h3 = refl
receive_loop_spins decode host (suc n) bytes app h1 h2 h3 =
    let some_bytes : (length bytes == 0) ≡ false = ground arith in
    rw (some_bytes, spin_round decode host bytes app h2 h3)
      (receive_loop_spins decode host n bytes app h1 h2 h3)
