-- ===== src/Server/Frames/Interleave/Order.antt =====
-- The double buffer as a queue of at most two frames: the one being sent and the one that waits.
use m_quic.Prelude.{
  ℕ, ◌≡◌, ◌∙◌, ap, sym, arith, ltb, leb, if◌then◌else◌, false, ◌&&◌, ℤ, pos, negsuc,
}
use m_quic.Prelude.{List, [], ◌∷◌, ◌++◌, some, take, append-nil, append_assoc}
use m_quic.Server.Frames.{
  FrameBuffers, get_two, pop_ready_frame, backlog_full, store_frame, fill_buffer,
}
use mathlib.Core.Path.{subst}
use m_quic.Server.Frames.Laws.{IsValid}
use m_quic.Server.Frames.Interleave.{
  CameraPc, NetworkPc, idle, sending, Threads, Step, Reach, here, next, look, wait, give_up,
  discard, go_on, choose, fill, store, pop, finish, both_start,
}
use m_quic.Server.Frames.Interleave.Safety.{Claimed, Reading, IsApart, Reach-IsApart}

-- The frame that waits for the network thread.
unfoldable pub waiting : FrameBuffers → List (List ℕ)
unfolding backlog_full
waiting f =
    if backlog_full f
    then take (get_two f.ready_size f.ready_idx) (get_two f.frame_buffer f.ready_idx) ∷ []
    else []

-- The frame that the network thread is sending, as it stands in its buffer now.
unfoldable pub on_the_way : NetworkPc → FrameBuffers → List (List ℕ)
on_the_way idle f = []
on_the_way (sending i n) f = take n (get_two f.frame_buffer i) ∷ []

abbrev pub held : Threads → List (List ℕ)
held s = on_the_way s.network s.frames ++ waiting s.frames

-- The frame that a store of the camera's answer puts in.
unfoldable pub captured : ℕ → ℤ → FrameBuffers → List (List ℕ)
captured idx (negsuc e) f = []
captured idx (pos n) f =
    if ltb 0 n && leb n f.frame_buffer_size then take n (get_two f.frame_buffer idx) ∷ [] else []

-- What a step puts into the queue, and what it has sent when it ends.
unfoldable pub put : {s u : Threads} → Step false s u → List (List ℕ)
put (look start c e) = []
put (wait start now c o e) = []
put (give_up start now d c o e) = []
put (discard c e) = []
put (go_on start c e) = []
put (choose c e) = []
put (fill idx jpeg answer c e) = []
put {s} (store idx answer c e) = captured idx answer s.frames
put (pop idx size after n p e) = []
put (finish idx size n e) = []

unfoldable pub sent : {s u : Threads} → Step false s u → List (List ℕ)
sent (look start c e) = []
sent (wait start now c o e) = []
sent (give_up start now d c o e) = []
sent (discard c e) = []
sent (go_on start c e) = []
sent (choose c e) = []
sent (fill idx jpeg answer c e) = []
sent (store idx answer c e) = []
sent (pop idx size after n p e) = []
sent {s} (finish idx size n e) = on_the_way s.network s.frames

-- The camera writes the buffer that holds no frame of the queue.
fill_keeps :
    (idx : ℕ) (jpeg : List ℕ) (n : NetworkPc) (f : FrameBuffers)
    → IsValid f
    → backlog_full f ≡ false
    → idx ≡ f.active_idx
    → Reading n f
    → on_the_way n (fill_buffer idx jpeg f) ++ waiting (fill_buffer idx jpeg f)
      ≡ on_the_way n f ++ waiting f
unfolding waiting on_the_way backlog_full fill_buffer
fill_keeps idx jpeg idle f v empty e r = ground arith
fill_keeps idx jpeg (sending i n) f v empty e r = ground arith

store_puts :
    (idx : ℕ) (answer : ℤ) (n : NetworkPc) (f : FrameBuffers)
    → IsValid f
    → backlog_full f ≡ false
    → idx ≡ f.active_idx
    → on_the_way n (store_frame idx answer f) ++ waiting (store_frame idx answer f)
      ≡ (on_the_way n f ++ waiting f) ++ captured idx answer f
unfolding waiting on_the_way backlog_full store_frame captured
store_puts idx answer idle f v empty e = ground arith
store_puts idx answer (sending i n) f v empty e = ground arith

pop_moves :
    (f after : FrameBuffers) (idx size : ℕ)
    → pop_ready_frame f ≡ (some (idx, size), after)
    → on_the_way (sending idx size) after ++ waiting after ≡ waiting f
unfolding waiting on_the_way backlog_full pop_ready_frame
pop_moves f after idx size e = ground arith

claim_at : {s : Threads} {c : CameraPc} → s.camera ≡ c → IsApart s → Claimed c s.frames
claim_at {s} e a = subst (λ (x : CameraPc). Claimed x s.frames) e a.claim

-- Each step takes what it has sent from the front of the queue, and puts what it stores at its end.
pub Step-refines :
    {s u : Threads} (st : Step false s u) → IsApart s → sent st ++ held u ≡ held s ++ put st
unfolding put sent waiting on_the_way
Step-refines (look start c e) a = ap held e ∙ sym (append-nil _)
Step-refines (wait start now c o e) a = ap held e ∙ sym (append-nil _)
Step-refines (give_up start now d c o e) a = cc
Step-refines (discard c e) a = absurd (claim_at c a)
Step-refines (go_on start c e) a = ap held e ∙ sym (append-nil _)
Step-refines (choose c e) a = ap held e ∙ sym (append-nil _)
Step-refines {s} (fill idx jpeg answer c e) a =
    let (empty, active) = claim_at c a in
    ap held e
    ∙ fill_keeps idx jpeg s.network s.frames a.valid empty active a.read
    ∙ sym (append-nil _)
Step-refines {s} (store idx answer c e) a =
    let (empty, active) = claim_at c a in
    ap held e ∙ store_puts idx answer s.network s.frames a.valid empty active
Step-refines {s} (pop idx size after n p e) a =
    ap held e
    ∙ pop_moves s.frames after idx size p
    ∙ ap (λ (x : NetworkPc). on_the_way x s.frames ++ waiting s.frames) (sym n)
    ∙ sym (append-nil _)
Step-refines {s} (finish idx size n e) a =
    ap (λ (x : Threads). on_the_way s.network s.frames ++ held x) e ∙ sym (append-nil _)

-- What has been stored, and what has been sent, in a run of the two threads.
unfoldable pub stored_frames : {s u : Threads} → Reach false s u → List (List ℕ)
stored_frames here = []
stored_frames (next r st) = stored_frames r ++ put st

unfoldable pub sent_frames : {s u : Threads} → Reach false s u → List (List ℕ)
sent_frames here = []
sent_frames (next r st) = sent_frames r ++ sent st

-- As long as the camera thread discards no waiting frame, the double buffer is a queue, in whatever
-- order the two threads run: the frames that were sent, the one that is being sent and the one that
-- waits are together those that the camera stored, in this order, each once and each with the bytes
-- that were stored.
pub frames_in_order :
    (f : FrameBuffers) {s : Threads}
    → IsValid f
    → backlog_full f ≡ false
    → (r : Reach false (both_start f) s) → sent_frames r ++ held s ≡ stored_frames r
unfolding sent_frames stored_frames waiting on_the_way
frames_in_order f v empty here = ground arith
frames_in_order f v empty (next {t} r st) =
    let started : IsApart (both_start f) = record { valid = v; claim = tt; read = tt } in
    append_assoc (sent_frames r) (sent st) _
    ∙ ap (λ (l : List (List ℕ)). sent_frames r ++ l) (Step-refines st (Reach-IsApart r started))
    ∙ sym (append_assoc (sent_frames r) (held t) (put st))
    ∙ ap (λ (l : List (List ℕ)). l ++ put st) (frames_in_order f v empty r)
