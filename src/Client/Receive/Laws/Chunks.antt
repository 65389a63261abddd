-- ===== src/Client/Receive/Laws/Chunks.antt =====
-- The stream data in pieces, each of which picoquic hands to the callback in a call of its own.
use m_quic.Prelude.{ℕ, suc, ◌+◌, ◌-◌, ◌<◌, ◌≤◌, ◌≡◌, refl, ◌∙◌, sym, ap, arith, ◌==◌}
use m_quic.Prelude.{true, false, List, [], ◌∷◌, ◌++◌, length, All, Option, none, some}
use m_quic.Prelude.{length-append, append-nil}
use mathlib.Core.Path.{subst}
use m_quic.Varint.Encode.{varint, varint_size, length-varint}
use m_quic.Prelude.{take, drop, ◌^◌}
use m_quic.Client.Stream.{Host}
use m_quic.Client.Receive.{
  Receiver, stream_data, go, begin_frame, receive_round, receive_loop, receive_event,
}
use m_quic.Client.Receive.Laws.{Decodes, IsFrame, IsIdle, wires, after_frames}
use m_quic.Client.Receive.Laws.Rounds.{
  Stands, Stands-finished, Stands-inside, Stands-into, after_frames-IsIdle, after_frames-append,
  finished, loop_up_to, round_into, rounds_of,
}

-- `Cuts r fs chunks`: the chunks are, one after the other, the rest `r` of a frame and the frames
-- `fs` on the wire, cut anywhere but in a frame's length.
pub data Cuts : List ℕ → List (List ℕ) → List (List ℕ) → Type 0 where
  ended : Cuts [] [] []
  inside :
      {fs cs : List (List ℕ)} (c r whole : List ℕ)
      → 0 < length c
      → 0 < length r
      → whole ≡ c ++ r
      → Cuts r fs cs
      → Cuts whole fs (c ∷ cs)
  up_to :
      {r c : List ℕ} {fs cs : List (List ℕ)} (gs hs : List (List ℕ))
      → c ≡ r ++ wires gs
      → fs ≡ gs ++ hs
      → Cuts [] hs cs
      → Cuts r fs (c ∷ cs)
  into :
      {r c : List ℕ} {fs cs : List (List ℕ)} (gs hs : List (List ℕ)) (p rest : List ℕ)
      → 0 < length rest
      → c ≡ r ++ (wires gs ++ (varint (length (p ++ rest)) ++ p))
      → fs ≡ gs ++ ((p ++ rest) ∷ hs)
      → Cuts rest hs cs
      → Cuts r fs (c ∷ cs)

All-split : (gs hs : List (List ℕ)) → All IsFrame (gs ++ hs) → All IsFrame gs × All IsFrame hs
All-split [] hs v = (tt, v)
All-split (g ∷ gs) hs v = let (a, b) = All-split gs hs v.1 in ((v.0, a), b)

module _ {D : Type 0} (decode : List ℕ → Option (ℕ × ℕ)) (decodes : Decodes decode) (host : Host D)
    (grants : (n : ℕ) (d : D) → (host.alloc n d).0 ≡ true) where
  -- The callback on one chunk after the other, with a number of rounds for each.
  abbrev pub receive_all : ℕ → List (List ℕ) → Receiver D → Option (Receiver D)
  receive_all n [] app = some app
  receive_all n (c ∷ cs) app = elim (receive_event decode host n stream_data c app) [
    | none ↦ none
    | some app1 ↦ receive_all n cs app1
  ]

  rounds_le : (r : List ℕ) → rounds_of decode decodes host grants r ≤ 1
  rounds_le [] = omega arith
  rounds_le (b ∷ r) = omega arith

  tail_pos : (size : ℕ) (p : List ℕ) → 0 < length (varint size ++ p)
  tail_pos size p = ground (arith, length-append (varint size) p, length-varint size)

  loop_nil : (n : ℕ) (app : Receiver D) → receive_loop decode host (suc n) [] app ≡ some app
  unfolding receive_loop
  loop_nil n app = refl

  step_last :
      (c : List ℕ) (app app1 : Receiver D) (n : ℕ)
      → 0 < length c
      → receive_round decode host c app ≡ go [] app1
      → receive_loop decode host (suc (suc n)) c app ≡ some app1
  unfolding receive_loop
  step_last c app app1 n some_bytes e =
      let full : (length c == 0) ≡ false = ground arith in rw (full, e) refl

  step_cons :
      (n : ℕ) (c : List ℕ) (cs : List (List ℕ)) (app app1 : Receiver D)
      → receive_loop decode host n c app ≡ some app1
      → receive_all n (c ∷ cs) app ≡ receive_all n cs app1
  unfolding receive_event
  step_cons n c cs app app1 e = rw (e, receive_all)

  -- Where memory is always given, the stream data of whole frames of between one and 2^62 - 1 bytes
  -- may come in chunks that are cut anywhere but in a frame's length: each frame is counted and
  -- handed on to be saved, in order and byte for byte, after the one that was begun. Two rounds more
  -- than there are frames are enough for each chunk.
  pub receive_all-frames :
      {r : List ℕ} {fs cs : List (List ℕ)} (n : ℕ) (app : Receiver D)
      → Cuts r fs cs
      → Stands decode decodes host grants r app
      → All IsFrame fs
      → length fs + 2 ≤ n
      → receive_all n cs app
        ≡ some
            (after_frames decode decodes host grants fs (finished decode decodes host grants r app))
  receive_all-frames n app ended h v enough = refl
  receive_all-frames n app (inside {fs} {cs} c r whole hc hr e cuts) h v enough =
      let (stands, same, round) =
        Stands-inside decode decodes host grants c r app hc hr
          (subst (λ (l : List ℕ). Stands decode decodes host grants l app) e h) in
      let app1 = record app { received = app.received ++ c } in
      let fuel : n ≡ suc (suc (n - 2)) = omega arith in
      step_cons n c cs app app1 (rw fuel (step_last c app app1 (n - 2) hc round))
      ∙ receive_all-frames n app1 cuts stands v enough
      ∙ ap (λ (a : Receiver D). some (after_frames decode decodes host grants fs a))
          (same ∙ ap (λ (l : List ℕ). finished decode decodes host grants l app) (sym e))
  receive_all-frames n app (up_to {r} {c} {fs} {cs} gs hs e eq cuts) h v enough =
      let vs = All-split gs hs (subst (λ (l : List (List ℕ)). All IsFrame l) eq v) in
      let left : ℕ = n - rounds_of decode decodes host grants r - length gs - 1 in
      let fuel : n ≡ rounds_of decode decodes host grants r + (length gs + suc left) =
        omega (arith, rounds_le r, length-append gs hs, ap (λ (l : List (List ℕ)). length l) eq) in
      let bytes : c ≡ r ++ (wires gs ++ []) =
        e ∙ ap (λ (l : List ℕ). r ++ l) (sym (append-nil (wires gs))) in
      let app1 =
        after_frames decode decodes host grants gs (finished decode decodes host grants r app) in
      let idle =
        after_frames-IsIdle decode decodes host grants gs
          (finished decode decodes host grants r app) vs.0
          (Stands-finished decode decodes host grants r app h) in
      step_cons n c cs app app1 (
        ap (λ (k : ℕ). receive_loop decode host k c app) fuel
        ∙ ap
            (λ (l : List ℕ).
              receive_loop decode host
                (rounds_of decode decodes host grants r + (length gs + suc left)) l app)
            bytes
        ∙ loop_up_to decode decodes host grants r [] gs (suc left) app h vs.0
        ∙ loop_nil left app1)
      ∙ receive_all-frames n app1 cuts idle vs.1
          (omega (arith, length-append gs hs, ap (λ (l : List (List ℕ)). length l) eq))
      ∙ ap some (
          sym (
            after_frames-append decode decodes host grants gs hs
              (finished decode decodes host grants r app)))
      ∙ ap
          (λ (l : List (List ℕ)).
            some (
              after_frames decode decodes host grants l
                (finished decode decodes host grants r app)))
          (sym eq)
  receive_all-frames n app (into {r} {c} {fs} {cs} gs hs p rest hr e eq cuts) h v enough =
      let f = p ++ rest in
      let vs = All-split gs (f ∷ hs) (subst (λ (l : List (List ℕ)). All IsFrame l) eq v) in
      let left : ℕ = n - rounds_of decode decodes host grants r - length gs - 2 in
      let counted = length-append gs (f ∷ hs) ∙ refl in
      let fuel : n ≡ rounds_of decode decodes host grants r + (length gs + suc (suc left)) =
        omega (arith, rounds_le r, counted, ap (λ (l : List (List ℕ)). length l) eq) in
      let tail = varint (length f) ++ p in
      let app1 =
        after_frames decode decodes host grants gs (finished decode decodes host grants r app) in
      let idle =
        after_frames-IsIdle decode decodes host grants gs
          (finished decode decodes host grants r app) vs.0
          (Stands-finished decode decodes host grants r app h) in
      let begun = record (begin_frame decode host (length f) app1) { received = p } in
      let (stands, same) = Stands-into decode decodes host grants p rest app1 hr vs.1.0 idle in
      step_cons n c cs app begun (
        ap (λ (k : ℕ). receive_loop decode host k c app) fuel
        ∙ ap
            (λ (l : List ℕ).
              receive_loop decode host
                (rounds_of decode decodes host grants r + (length gs + suc (suc left))) l app)
            e
        ∙ loop_up_to decode decodes host grants r tail gs (suc (suc left)) app h vs.0
        ∙ step_last tail app1 begun left (tail_pos (length f) p)
            (round_into decode decodes host grants p rest app1 hr vs.1.0 idle))
      ∙ receive_all-frames n begun cuts stands vs.1.1
          (omega (arith, counted, ap (λ (l : List (List ℕ)). length l) eq))
      ∙ ap (λ (a : Receiver D). some (after_frames decode decodes host grants hs a)) same
      ∙ ap some (
          sym (
            after_frames-append decode decodes host grants gs (f ∷ hs)
              (finished decode decodes host grants r app)))
      ∙ ap
          (λ (l : List (List ℕ)).
            some (
              after_frames decode decodes host grants l
                (finished decode decodes host grants r app)))
          (sym eq)

-- The bytes `c` are not empty, and picoquic's decoder finds them too short.
stopped_round :
    {D : Type 0} (decode : List ℕ → Option (ℕ × ℕ)) (host : Host D) (n : ℕ) (c : List ℕ)
    (app : Receiver D)
    → IsIdle app
    → decode c ≡ none
    → receive_loop decode host (suc n) c app ≡ some app
unfolding receive_loop receive_round
stopped_round decode host n [] app idle lost = refl
stopped_round decode host n (b ∷ c) app idle lost =
    let none_yet : (app.frame_size == 0) ≡ true = ground (arith, idle.no_frame) in
    let full : (length (b ∷ c) == 0) ≡ false = ground arith in rw (none_yet, lost, full) refl

-- picoquic's decoder answers 0 for a number of which only the first bytes are there.
abbrev pub NeedsAll : (List ℕ → Option (ℕ × ℕ)) → Type 0
NeedsAll decode =
    (v k : ℕ) → v < 2 ^ 62 → 0 < k → k < varint_size v → decode (take k (varint v)) ≡ none

-- If a frame's length is cut between two calls, the call that ends within it returns without any
-- effect and forgets its bytes: whatever the calls after it bring, the first of them is read as if
-- the rest of that length were the start of a new one.
pub cut_length_lost :
    {D : Type 0} (decode : List ℕ → Option (ℕ × ℕ)) (decodes : Decodes decode)
    (needs_all : NeedsAll decode) (host : Host D)
    (grants : (n : ℕ) (d : D) → (host.alloc n d).0 ≡ true) (n size k : ℕ) (more : List ℕ)
    (cs : List (List ℕ)) (app : Receiver D)
    → IsIdle app
    → size < 2 ^ 62
    → 0 < k
    → k < varint_size size
    → receive_all decode decodes host grants
        (suc n)
        (take k (varint size) ∷ (drop k (varint size) ++ more) ∷ cs)
        app
      ≡ receive_all decode decodes host grants (suc n) ((drop k (varint size) ++ more) ∷ cs) app
cut_length_lost decode decodes needs_all host grants n size k more cs app idle small some_bytes
      short =
    step_cons decode decodes host grants (suc n) (take k (varint size))
      ((drop k (varint size) ++ more) ∷ cs) app app
      (stopped_round decode host n (take k (varint size)) app idle
        (needs_all size k small some_bytes short))
