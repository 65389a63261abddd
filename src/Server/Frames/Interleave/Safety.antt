-- ===== src/Server/Frames/Interleave/Safety.antt =====
-- When the two threads can meet in one buffer.
use m_quic.Prelude.{ℕ, ◌≡◌, refl, arith, ◌⊎◌, Bool, true, false}
use m_quic.Server.Frames.{FrameBuffers, pop_ready_frame, backlog_full, discard_ready, store_frame}
use m_quic.Server.Frames.{fill_buffer}
use m_quic.Server.Frames.Laws.{IsValid}
use m_quic.Server.Frames.Interleave.{
  CameraPc, checking, looked, dropping, choosing, writing, filled,
}
use m_quic.Server.Frames.Interleave.{NetworkPc, idle, sending, Threads, Step, Reach, here, next}
use m_quic.Server.Frames.Interleave.{look, wait, give_up, discard, go_on, choose, fill, store, pop}
use m_quic.Server.Frames.Interleave.{finish, IsTorn, both_start, is_overdue}

-- What the camera has Claimed, where it stands: nothing, or that no frame waits, or also a buffer.
abbrev pub Claimed : CameraPc → FrameBuffers → Type 0
Claimed (checking st) f = Unit {0}
Claimed (looked st true) f = Unit {0}
Claimed (looked st false) f = backlog_full f ≡ false
Claimed dropping f = ⊥
Claimed choosing f = backlog_full f ≡ false
Claimed (writing i) f = (backlog_full f ≡ false) × (i ≡ f.active_idx)
Claimed (filled i a) f = (backlog_full f ≡ false) × (i ≡ f.active_idx)

-- Which buffer the network thread reads: the ready one with no frame waiting, or the active one
-- with a frame waiting.
abbrev pub Reading : NetworkPc → FrameBuffers → Type 0
Reading idle f = Unit {0}
Reading (sending i n) f =
    ((i ≡ f.ready_idx) × (backlog_full f ≡ false)) ⊎ ((i ≡ f.active_idx) × (backlog_full f ≡ true))

pub record IsApart (s : Threads) : Type 0 where
  pub valid : IsValid s.frames
  pub claim : Claimed s.camera s.frames
  pub read : Reading s.network s.frames

looked_claim :
    (start : ℕ) (b : Bool) (f : FrameBuffers) → backlog_full f ≡ b → Claimed (looked start b) f
looked_claim start true f e = tt
looked_claim start false f e = e

pub Step-IsApart : {s u : Threads} → Step false s u → IsApart s → IsApart u
unfolding backlog_full discard_ready store_frame fill_buffer pop_ready_frame
Step-IsApart {s} (look start c e) a = rw e (record {
  valid = a.valid;
  claim = looked_claim start (backlog_full s.frames) s.frames refl;
  read = a.read;
})
Step-IsApart (wait start now c o e) a = ground arith
Step-IsApart (give_up start now d c o e) a = cc
Step-IsApart (discard c e) a = ground arith
Step-IsApart (go_on start c e) a = ground arith
Step-IsApart (choose c e) a = ground arith
Step-IsApart (fill idx jpeg answer c e) a = ground arith
Step-IsApart (store idx answer c e) a = ground arith
Step-IsApart (pop idx size after n p e) a = ground arith
Step-IsApart (finish idx size n e) a = ground arith

pub Reach-IsApart : {s u : Threads} → Reach false s u → IsApart s → IsApart u
Reach-IsApart here a = a
Reach-IsApart (next r st) a = Step-IsApart st (Reach-IsApart r a)

apart_not-IsTorn : {s : Threads} → IsApart s → ¬ IsTorn s
apart_not-IsTorn a (i, n, c, w) = ground arith

-- As long as the camera thread discards no waiting frame, it never writes the buffer that the
-- network thread is sending from, in whatever order the two run.
pub no_tearing :
    (f : FrameBuffers) {s : Threads} → IsValid f → Reach false (both_start f) s → ¬ IsTorn s
no_tearing f v r = apart_not-IsTorn (Reach-IsApart r (record { valid = v; claim = tt; read = tt }))

-- While the network thread still sends an earlier frame, a frame that has waited for more than
-- 200 ms makes the camera thread write the very buffer that is being sent.
pub tearing_after_discard :
    (f : FrameBuffers) (start now size : ℕ)
    → backlog_full f ≡ true
    → is_overdue start now ≡ true
    → (s : Threads) × Reach true
        (record { frames = f; camera = checking start; network = sending f.active_idx size })
        s
      × IsTorn s
unfolding discard_ready
tearing_after_discard f start now size full late =
    let n = sending f.active_idx size in
    (
      record { frames = discard_ready f; camera = writing f.active_idx; network = n },
      next {t = record { frames = discard_ready f; camera = choosing; network = n }}
          (next {t = record { frames = f; camera = dropping; network = n }}
            (next {t = record { frames = f; camera = looked start true; network = n }}
              (next here (look start refl (rw full))) (give_up start now refl refl late refl))
            (discard refl refl))
          (choose refl refl),
      (f.active_idx, size, refl, refl),
    )
