-- ===== src/Client/Receive/Laws/Rounds.antt =====
-- The rounds of the callback's loop on a part of a frame, on its end, and on whole frames.
use m_quic.Prelude.{ℕ, suc, ◌+◌, ◌^◌, ◌<◌, ◌≡◌, refl, ◌∙◌, sym, ap, arith, ltb, ◌==◌, if◌then◌else◌}
use m_quic.Prelude.{true, false, ◌&&◌, List, [], ◌∷◌, ◌++◌, length, take, All, Option}
use m_quic.Prelude.{length-append, take_all, drop_all, take-append, drop-append, append_assoc}
use m_quic.Varint.Encode.{varint, varint_size, length-varint}
use m_quic.Client.Stream.{Host, sub64}
use m_quic.Client.Receive.{
  Receiver, go, begin_frame, end_frame, copy_payload, receive_round, receive_loop,
}
use m_quic.Client.Receive.Laws.{
  Decodes, IsFrame, IsIdle, wire, wires, after_frame, after_frames, round_frame, begin_parts,
  copy_step, end_frame-IsIdle,
}

module _ {D : Type 0} (decode : List ℕ → Option (ℕ × ℕ)) (decodes : Decodes decode) (host : Host D)
    (grants : (n : ℕ) (d : D) → (host.alloc n d).0 ≡ true) where
  -- Where the receiver stands with the rest `r` of a frame to come.
  abbrev pub Stands : List ℕ → Receiver D → Type 0
  Stands [] app = IsIdle app
  Stands (b ∷ r) app =
      (app.has_buffer ≡ true)
      × (app.frame_size ≡ length app.received + suc (length r))
      × (app.frame_size < 2 ^ 62)

  -- The frame at its end.
  abbrev pub finished : List ℕ → Receiver D → Receiver D
  finished [] app = app
  finished (b ∷ r) app = end_frame decode host (record app { received = app.received ++ (b ∷ r) })

  copy_part :
      (c : List ℕ) (app : Receiver D)
      → app.has_buffer ≡ true
      → length app.received + length c < app.frame_size
      → copy_payload decode host c app ≡ go [] (record app { received = app.received ++ c })
  unfolding copy_payload
  copy_part c app buffer h =
      let some_frame : (ltb 0 app.frame_size && app.has_buffer) ≡ true = ground arith in
      let short : ltb app.frame_size (length app.received + length c) ≡ false = ground arith in
      let open_frame : (length (app.received ++ c) == app.frame_size) ≡ false =
        ground (arith, length-append app.received c) in
      rw
        (
          some_frame,
          short,
          take_all (length c) c (omega arith),
          drop_all (length c) c (omega arith),
          open_frame,
        )
        refl

  round_finish :
      (b : ℕ) (r more : List ℕ) (app : Receiver D)
      → Stands (b ∷ r) app
      → receive_round decode host ((b ∷ r) ++ more) app ≡ go more (finished (b ∷ r) app)
  unfolding receive_round
  round_finish b r more app (buffer, size, small) =
      let begun : (app.frame_size == 0) ≡ false = ground arith in
      let n : (if ltb app.frame_size (length app.received + length ((b ∷ r) ++ more))
            then sub64 app.frame_size (length app.received)
            else length ((b ∷ r) ++ more))
          ≡ length (b ∷ r) =
        ground (arith, length-append r more) in
      let whole : app.received ++ take (length (b ∷ r)) ((b ∷ r) ++ more)
          ≡ app.received ++ (b ∷ r) =
        ap (λ (l : List ℕ). app.received ++ l) (take-append (length (b ∷ r)) (b ∷ r) more refl) in
      rw begun (
        copy_step decode decodes host grants ((b ∷ r) ++ more) (app.received ++ (b ∷ r)) app
          (length (b ∷ r)) n whole (omega arith) buffer
          (length-append app.received (b ∷ r) ∙ sym size)
        ∙ ap (λ (l : List ℕ). go l (finished (b ∷ r) app))
            (drop-append (length (b ∷ r)) (b ∷ r) more refl))

  round_inside :
      (c : List ℕ) (app : Receiver D)
      → 0 < app.frame_size
      → app.has_buffer ≡ true
      → length app.received + length c < app.frame_size
      → receive_round decode host c app ≡ go [] (record app { received = app.received ++ c })
  unfolding receive_round
  round_inside c app more buffer h =
      let begun : (app.frame_size == 0) ≡ false = ground arith in
      rw begun (copy_part c app buffer h)

  pub round_into :
      (p rest : List ℕ) (app : Receiver D)
      → 0 < length rest
      → IsFrame (p ++ rest)
      → IsIdle app
      → receive_round decode host (varint (length (p ++ rest)) ++ p) app
        ≡ go [] (record (begin_frame decode host (length (p ++ rest)) app) { received = p })
  unfolding receive_round
  round_into p rest app more v idle =
      let size = length (p ++ rest) in
      let none_yet : (app.frame_size == 0) ≡ true = ground (arith, idle.no_frame) in
      let (sized, empty, buffer) =
        begin_parts decode decodes host grants size app v.0 idle.buffer in
      let first = begin_frame decode host size app in
      let room : length first.received + length p < first.frame_size =
        omega (arith, length-append p rest, sized, ap (λ (l : List ℕ). length l) empty) in
      rw
        (
          none_yet,
          decodes size p v.1,
          drop-append (varint_size size) (varint size) p (sym (length-varint size)),
        )
        (copy_part p first buffer room
          ∙ ap (λ (l : List ℕ). go [] (record first { received = l ++ p })) empty)

  step_over :
      (c more : List ℕ) (n : ℕ) (app app1 : Receiver D)
      → 0 < length c
      → receive_round decode host (c ++ more) app ≡ go more app1
      → receive_loop decode host (suc n) (c ++ more) app ≡ receive_loop decode host n more app1
  unfolding receive_loop
  step_over c more n app app1 some_bytes e =
      let full : (length (c ++ more) == 0) ≡ false =
        ground (arith, length-append c more, some_bytes) in
      rw (full, e) refl

  pub Stands-finished : (r : List ℕ) (app : Receiver D) → Stands r app → IsIdle (finished r app)
  Stands-finished [] app h = h
  Stands-finished (b ∷ r) app h =
      end_frame-IsIdle decode decodes host grants
        (record app { received = app.received ++ (b ∷ r) }) h.0

  -- A chunk that brings nothing but bytes of a frame that goes on.
  pub Stands-inside :
      (c r : List ℕ) (app : Receiver D)
      → 0 < length c
      → 0 < length r
      → Stands (c ++ r) app
      → Stands r (record app { received = app.received ++ c })
        × (finished r (record app { received = app.received ++ c }) ≡ finished (c ++ r) app)
        × (receive_round decode host c app ≡ go [] (record app { received = app.received ++ c }))
  Stands-inside [] r app hc hr _ = elim hc [ ]
  Stands-inside (b ∷ c) [] app hc hr _ = elim hr [ ]
  Stands-inside (b ∷ c) (d ∷ r) app hc hr (buffer, size, small) = (
    (
      buffer,
      omega (arith, size, length-append app.received (b ∷ c), length-append c (d ∷ r)),
      small,
    ),
    ap (λ (l : List ℕ). end_frame decode host (record app { received = l }))
        (append_assoc app.received (b ∷ c) (d ∷ r)),
    round_inside (b ∷ c) app (omega (arith, size)) buffer
        (omega (arith, size, length-append c (d ∷ r))),
  )

  -- A chunk that ends in a frame that has begun.
  pub Stands-into :
      (p rest : List ℕ) (app : Receiver D)
      → 0 < length rest
      → IsFrame (p ++ rest)
      → IsIdle app
      → let begun = record (begin_frame decode host (length (p ++ rest)) app) { received = p } in
        Stands rest begun
        × (finished rest begun ≡ after_frame decode decodes host grants (p ++ rest) app)
  Stands-into p [] app hr v idle = elim hr [ ]
  Stands-into p (d ∷ rest) app hr v idle =
      let (sized, empty, buffer) =
        begin_parts decode decodes host grants (length (p ++ (d ∷ rest))) app v.0 idle.buffer in
      ((buffer, omega (arith, sized, length-append p (d ∷ rest)), omega (arith, sized, v.1)), refl)

  after_frame-IsIdle :
      (f : List ℕ) (app : Receiver D)
      → IsFrame f
      → IsIdle app
      → IsIdle (after_frame decode decodes host grants f app)
  after_frame-IsIdle f app v idle =
      end_frame-IsIdle decode decodes host grants
        (record (begin_frame decode host (length f) app) { received = f })
        (begin_parts decode decodes host grants (length f) app v.0 idle.buffer).2

  pub after_frames-IsIdle :
      (gs : List (List ℕ)) (app : Receiver D)
      → All IsFrame gs
      → IsIdle app
      → IsIdle (after_frames decode decodes host grants gs app)
  after_frames-IsIdle [] app v idle = idle
  after_frames-IsIdle (g ∷ gs) app v idle =
      after_frames-IsIdle gs (after_frame decode decodes host grants g app) v.1
        (after_frame-IsIdle g app v.0 idle)

  wire_pos : (g : List ℕ) → 0 < length (wire g)
  wire_pos g = ground (arith, length-append (varint (length g)) g, length-varint (length g))

  loop_frames :
      (gs : List (List ℕ)) (rest : List ℕ) (n : ℕ) (app : Receiver D)
      → All IsFrame gs
      → IsIdle app
      → receive_loop decode host (length gs + n) (wires gs ++ rest) app
        ≡ receive_loop decode host n rest (after_frames decode decodes host grants gs app)
  loop_frames [] rest n app v idle = let none_more : 0 + n ≡ n = omega arith in rw none_more
  loop_frames (g ∷ gs) rest n app v idle =
      let count : length (g ∷ gs) + n ≡ suc (length gs + n) = omega arith in
      let bytes = append_assoc (wire g) (wires gs) rest in
      rw (count, bytes)
        (step_over (wire g) (wires gs ++ rest) (length gs + n) app
            (after_frame decode decodes host grants g app) (wire_pos g)
            (round_frame decode decodes host grants g (wires gs ++ rest) app v.0 idle)
          ∙ loop_frames gs rest n (after_frame decode decodes host grants g app) v.1
              (after_frame-IsIdle g app v.0 idle))

  pub after_frames-append :
      (gs hs : List (List ℕ)) (app : Receiver D)
      → after_frames decode decodes host grants (gs ++ hs) app
        ≡ after_frames decode decodes host grants hs
            (after_frames decode decodes host grants gs app)
  after_frames-append [] hs app = refl
  after_frames-append (g ∷ gs) hs app =
      after_frames-append gs hs (after_frame decode decodes host grants g app)

  -- How many rounds the rest of a frame takes.
  abbrev pub rounds_of : List ℕ → ℕ
  rounds_of [] = 0
  rounds_of (b ∷ r) = 1

  loop_finish :
      (r more : List ℕ) (n : ℕ) (app : Receiver D)
      → Stands r app
      → receive_loop decode host (rounds_of r + n) (r ++ more) app
        ≡ receive_loop decode host n more (finished r app)
  loop_finish [] more n app h = let none_more : 0 + n ≡ n = omega arith in rw none_more
  loop_finish (b ∷ r) more n app h =
      let one : 1 + n ≡ suc n = omega arith in
      rw one (
        step_over (b ∷ r) more n app (finished (b ∷ r) app) (omega arith)
          (round_finish b r more app h))

  -- What the rest of a frame and whole frames leave of a chunk.
  pub loop_up_to :
      (r tail : List ℕ) (gs : List (List ℕ)) (n : ℕ) (app : Receiver D)
      → Stands r app
      → All IsFrame gs
      → receive_loop decode host (rounds_of r + (length gs + n)) (r ++ (wires gs ++ tail)) app
        ≡ receive_loop decode host n tail
            (after_frames decode decodes host grants gs (finished r app))
  loop_up_to r tail gs n app h v =
      loop_finish r (wires gs ++ tail) (length gs + n) app h
      ∙ loop_frames gs tail n (finished r app) v (Stands-finished r app h)
