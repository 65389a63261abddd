-- ===== src/Server/Pacing.antt =====
-- Paced sends, src/quic_server.c: `wait_for_pacing` and `send_with_pacing`. The wait takes a number
-- of rounds, and gives `none` when they are used up.
pub mod Laws
mod Runs
use m_quic.Prelude.{ℕ, zero, suc, ◌-◌, ◌%◌, ◌^◌, ltb, if◌then◌else◌, Bool, true, false, ℤ, is_ok}
use m_quic.Prelude.{List, length, Option, none, some}
use m_quic.Prelude.Effect.{Eff, pure, ◌>>=◌, ◌>>◌, call, act}
use m_quic.PathAlgo.{QuicPath}
use m_quic.Quic.{Quic}

module _ {W : Type 0} (q : Quic W) where
  -- The loop, with `now_us` and `next_us`. Without a later `next_us` the clock is not read again.
  unfoldable pub pacing_loop : ℕ → Option QuicPath → ℕ → ℕ → Eff W (Unit {0})
  pacing_loop zero path now_us next_us w = none
  pacing_loop (suc n) path now_us next_us w =
      let (authorized, next', w1) = q.is_sending_authorized path now_us next_us w in
      let (now', w2) = q.current_time (q.usleep ((next' - now_us) % 2 ^ 32) w1) in
      let slept = pacing_loop n path now' next' w2 in
      let spun = pacing_loop n path now_us next' w1 in
      if authorized then some (tt, w1) else if ltb now_us next' then slept else spun

  unfoldable pub wait_for_pacing : ℕ → Option QuicPath → Eff W (Unit {0})
  wait_for_pacing rounds path = do
    now_us ← call q.current_time
    pacing_loop rounds path now_us now_us

  -- `if (ret == 0) picoquic_update_pacing_after_send(…)`
  abbrev pub after_send : Option QuicPath → ℕ → Bool → Eff W (Unit {0})
  after_send path len true = do
    now_us ← call q.current_time
    act (q.update_pacing_after_send path len now_us)
  after_send path len false = pure tt

  unfoldable pub send_with_pacing : ℕ → Option QuicPath → ℕ → List ℕ → Bool → Eff W ℤ
  send_with_pacing rounds path sid buf set_fin = do
    wait_for_pacing rounds path
    ret ← call (q.add_to_stream sid buf set_fin)
    after_send path (length buf) (is_ok ret)
    pure ret
