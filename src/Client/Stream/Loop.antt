-- ===== src/Client/Stream/Loop.antt =====
-- The loop of `wt_handle_stream_data` of client/wt_client.c, round by round.
use m_quic.Prelude.{
  ℕ, zero, suc, ◌≤◌, ◌<◌, ◌≡◌, refl, ◌∙◌, sym, ap, arith, ◌==◌, if-true, if-false, true, false, not,
  ◌&&◌, ℤ, inl, inr,
}
use m_quic.Prelude.{List, length, some, Bool-cases}
use m_quic.Client.Stream.{
  Host, WtStream, App, Round, done, again, payload_round, stream_round, stream_loop,
}

module _ {D : Type 0} (host : Host D) where
  after_round :
      (n : ℕ) (r : Round D) (x : ℤ × WtStream × App D)
      → ((rest : List ℕ) (st : WtStream) (app : App D)
          → stream_loop host n rest st app ≡ some x
          → stream_loop host (suc n) rest st app ≡ some x)
      → elim r [
        | done ret st1 app1 ↦ some (ret, st1, app1)
        | again rest1 st1 app1 ↦ stream_loop host n rest1 st1 app1
      ]
        ≡ some x
      → elim r [
        | done ret st1 app1 ↦ some (ret, st1, app1)
        | again rest1 st1 app1 ↦ stream_loop host (suc n) rest1 st1 app1
      ]
        ≡ some x
  after_round n (done ret st app) x ih e = e
  after_round n (again rest st app) x ih e = ih rest st app e

  one_more :
      (n : ℕ) (rest : List ℕ) (st : WtStream) (app : App D) (x : ℤ × WtStream × App D)
      → stream_loop host n rest st app ≡ some x
      → stream_loop host (suc n) rest st app ≡ some x
  unfolding stream_loop
  one_more zero rest st app x e = cc
  one_more (suc n) rest st app x e = elim (Bool-cases (length rest == 0)) [
    | inl nothing ↦ if-true _ _ nothing ∙ sym (if-true _ _ nothing) ∙ e
    | inr bytes ↦
        if-false _ _ bytes
        ∙ after_round n (stream_round host rest st app) x
            (λ rest1 st1 app1. one_more n rest1 st1 app1 x) (sym (if-false _ _ bytes) ∙ e)
  ]

  -- More rounds than enough do not matter.
  pub more_rounds :
      (m n : ℕ) (rest : List ℕ) (st : WtStream) (app : App D) (x : ℤ × WtStream × App D)
      → n ≤ m
      → stream_loop host n rest st app ≡ some x
      → stream_loop host m rest st app ≡ some x
  more_rounds zero n rest st app x h e =
      ap (λ (k : ℕ). stream_loop host k rest st app) (omega (arith, h)) ∙ e
  more_rounds (suc m) n rest st app x h e = elim (Bool-cases (n == suc m)) [
    | inl same ↦ ap (λ (k : ℕ). stream_loop host k rest st app) (ground (arith, same)) ∙ e
    | inr fewer ↦
        one_more m rest st app x (more_rounds m n rest st app x (ground (arith, h, fewer)) e)
  ]

  pub stream_round-framed :
      (rest : List ℕ) (st : WtStream) (app : App D)
      → st.header_ok ≡ true
      → st.use_len_framing ≡ true
      → stream_round host rest st app ≡ payload_round host rest st app
  unfolding stream_round
  stream_round-framed rest st app opened on =
      let past_header : not st.header_ok ≡ false = ground (arith, opened) in
      let framed : (not st.use_len_framing && st.cur_len == 0) ≡ false = ground (arith, on) in
      if-false _ _ past_header ∙ if-false _ _ framed ∙ if-true _ _ on

  pub same_round :
      (n : ℕ) (rest rest1 : List ℕ) (st st1 : WtStream) (app : App D)
      → 0 < length rest
      → 0 < length rest1
      → stream_round host rest st app ≡ stream_round host rest1 st1 app
      → stream_loop host (suc n) rest st app ≡ stream_loop host (suc n) rest1 st1 app
  unfolding stream_loop
  same_round n rest rest1 st st1 app h h1 e =
      let bytes : (length rest == 0) ≡ false = ground arith in
      let bytes1 : (length rest1 == 0) ≡ false = ground arith in rw (bytes, bytes1, e) refl
