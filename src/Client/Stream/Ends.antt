-- ===== src/Client/Stream/Ends.antt =====
-- The handler of stream data, client/wt_client.c, comes to an end on every input, with a buffer that
-- fits.
use m_quic.Prelude.{
  ℕ, zero, suc, ◌+◌, ◌*◌, ◌≤◌, ◌<◌, ◌≡◌, refl, ◌∙◌, if-true, if-false, arith, ◌==◌,
}
use m_quic.Prelude.{ℤ, pos, minus_one, ◌⊎◌, inl, inr, Bool-cases}
use m_quic.Prelude.{List, length, Option, some}
use m_quic.Client.Stream.{Host, WtStream, App, Round, done, again}
use m_quic.Client.Stream.{stream_round, stream_loop}
use m_quic.Client.Stream.Rank.{rank, Lower}
use m_quic.Client.Stream.Rank.{IsFit, over, less}
use m_quic.Client.Stream.Lower.{stream_round-Lower}

-- The loop answered, with a buffer that fits or with the answer -1.
abbrev pub Answered : {D : Type 0} → Option (ℤ × WtStream × App D) → Type 0
Answered {D} o =
    (ret : ℤ) × (st : WtStream) × (app : App D) × (o ≡ some (ret, st, app))
    × ((ret ≡ minus_one) ⊎ IsFit st)

module _ {D : Type 0} (host : Host D) where
  loop_from :
      (n m : ℕ) (r : Round D)
      → ((rest : List ℕ) (st : WtStream) (app : App D)
          → IsFit st
          → rank rest st < n
          → Answered (stream_loop host n rest st app))
      → Lower m r
      → m ≤ n
      → Answered (elim r [
        | done ret st1 app1 ↦ some (ret, st1, app1)
        | again rest1 st1 app1 ↦ stream_loop host n rest1 st1 app1
      ])
  loop_from n m (done ret st app) ih (over _ _ _ h) le = (ret, st, app, refl, h)
  loop_from n m (again rest st app) ih (less _ _ _ lt fit) le = ih rest st app fit (omega arith)

  -- With more rounds than the rank of its input and its stream the loop answers.
  stream_loop-Answered :
      (n : ℕ) (rest : List ℕ) (st : WtStream) (app : App D)
      → IsFit st
      → rank rest st < n
      → Answered (stream_loop host n rest st app)
  unfolding stream_loop
  stream_loop-Answered zero rest st app fit h = absurd (omega arith)
  stream_loop-Answered (suc n) rest st app fit h = elim (Bool-cases (length rest == 0)) [
    | inl nothing ↦ (pos 0, st, app, if-true _ _ nothing, inr fit)
    | inr some_bytes ↦
        let (ret, st', app', e, fits) =
          loop_from n (rank rest st) (stream_round host rest st app) (stream_loop-Answered n)
            (stream_round-Lower host rest st app fit (ground (arith, some_bytes))) (omega arith) in
        (ret, st', app', if-false _ _ some_bytes ∙ e, fits)
  ]

  -- Whatever bytes arrive on a stream whose buffer fits, and whatever the system answers, the
  -- handler's loop comes to an end within three rounds a byte and three more, and what the buffer
  -- holds and waits for is then within its capacity, unless the answer is -1.
  pub stream_loop_ends :
      (bytes : List ℕ) (st : WtStream) (app : App D)
      → IsFit st
      → Answered (stream_loop host (3 * length bytes + 3) bytes st app)
  stream_loop_ends bytes st app fit =
      stream_loop-Answered (3 * length bytes + 3) bytes st app fit (ground arith)
