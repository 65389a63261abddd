-- ===== src/Client/Stream/Rank.antt =====
-- What a round of the handler of stream data, client/wt_client.c, uses up, and which buffers fit.
use m_quic.Prelude.{ℕ, ◌+◌, ◌-◌, ◌*◌, ◌≤◌, ◌<◌, ◌≡◌, refl, arith, ltb, ◌==◌, if◌then◌else◌}
use m_quic.Prelude.{Bool, true, false, ℤ, minus_one, ◌⊎◌, inl, inr}
use m_quic.Prelude.{
  List, [], ◌++◌, length, take, drop, Option, none, some, length-drop, length-append, length-take,
  min,
}
use m_quic.Varint.{wt_varint_decode}
use m_quic.Client.Jpeg.{extract_jpegs}
use m_quic.Client.Jpeg.Laws.{extract_jpegs_left}
use m_quic.Client.Stream.{WtStream, App, payload_need, sub64, Round, done, again}
use m_quic.Client.Stream.{max_frame_len}

-- What is in the buffer is within its capacity; while the payload of a frame is read, it is no more
-- than that payload, which fits the buffer.
pub record IsFit (st : WtStream) : Type 0 where
  pub within : length st.buf ≤ (if st.use_len_framing then payload_need st else st.cap)
  pub room : (if st.use_len_framing then payload_need st else 0) ≤ st.cap
  pub small : st.cur_len ≤ max_frame_len

-- What a round uses up: bytes first, and the state of the length framing among rounds without any.
abbrev pub framing_rank : WtStream → ℕ
framing_rank st = if st.use_len_framing then (if payload_need st == 0 then 1 else 2) else 0

abbrev pub rank : List ℕ → WtStream → ℕ
rank rest st = 3 * length rest + framing_rank st

-- The loop is over, with a buffer that fits or with the answer -1, or it goes on with less.
pub data Lower {D : Type 0} (m : ℕ) : Round D → Type 0 where
  over :
      (ret : ℤ) (st : WtStream) (app : App D)
      → (ret ≡ minus_one) ⊎ IsFit st
      → Lower m (done ret st app)
  less :
      (rest : List ℕ) (st : WtStream) (app : App D)
      → rank rest st < m
      → IsFit st
      → Lower m (again rest st app)

pub Lower-if :
    {D : Type 0} (m : ℕ) (b : Bool) (x y : Round D)
    → (b ≡ true → Lower m x)
    → (b ≡ false → Lower m y)
    → Lower m (if b then x else y)
Lower-if m true x y hx hy = hx refl
Lower-if m false x y hx hy = hy refl

pub Lower-option :
    {D A : Type 0} (m : ℕ) (o : Option A) (x : Round D) (f : A → Round D)
    → Lower m x
    → ((a : A) → o ≡ some a → Lower m (f a))
    → Lower m (elim o [ none ↦ x | some a ↦ f a ])
Lower-option m none x f hx hf = hx
Lower-option m (some a) x f hx hf = hf a refl

pub decode_uses :
    (p : List ℕ) (v n : ℕ) → wt_varint_decode p ≡ some (v, n) → (1 ≤ n) × (n ≤ length p)
unfolding wt_varint_decode
decode_uses p v n e = ground arith

pub sub64_exact : (need got : ℕ) → got ≤ need → need ≤ max_frame_len → sub64 need got ≡ need - got
sub64_exact need got h small = omega arith

-- The stream behind its header.
abbrev pub opened : WtStream → WtStream
opened st = record st {
  header_ok = true;
  cur_len = 0;
  buf = [];
  pts_len = 0;
  use_len_framing = false;
}

pub fresh-IsFit : (st : WtStream) → IsFit (opened st)
fresh-IsFit st = record { within = omega arith; room = omega arith; small = omega arith }

pub header_rank :
    (rest : List ℕ) (st : WtStream) (c c2 : ℕ)
    → 1 ≤ c
    → 1 ≤ length rest
    → rank (drop (c + c2) rest) (opened st) < rank rest st
header_rank rest st c c2 h1 h2 = ground (arith, length-drop (c + c2) rest)

pub payload_need_cap : (st : WtStream) → payload_need st ≤ st.cur_len
unfolding payload_need
payload_need_cap st = ground arith

-- The bytes of the payload that a round takes.
abbrev pub taken : List ℕ → WtStream → ℕ
taken rest st =
    let left = sub64 (payload_need st) (length st.buf) in
    if ltb left (length rest) then left else length rest

abbrev pub filled : List ℕ → WtStream → WtStream
filled rest st = record st { buf = st.buf ++ take (taken rest st) rest }

module _ (rest : List ℕ) (st : WtStream) (fit : IsFit st) (on : st.use_len_framing ≡ true) where
  pub got_within : length st.buf ≤ payload_need st
  got_within = ground (arith, fit.within, on)

  pub left_exact : sub64 (payload_need st) (length st.buf) ≡ payload_need st - length st.buf
  left_exact =
      sub64_exact (payload_need st) (length st.buf) got_within
        (omega (arith, payload_need_cap st, fit.small))

  pub length-filled :
      length (filled rest st).buf
      ≡ length st.buf + min (payload_need st - length st.buf) (length rest)
  length-filled = ground (
    arith,
    left_exact,
    length-append st.buf (take (taken rest st) rest),
    length-take (taken rest st) rest,
  )

  pub payload_same : payload_need (filled rest st) ≡ payload_need st
  unfolding payload_need
  payload_same = refl

  pub filled-IsFit : IsFit (filled rest st)
  filled-IsFit = record {
    within = ground (arith, on, length-filled, payload_same, got_within);
    room = ground (arith, on, fit.room, payload_same);
    small = fit.small;
  }

  -- The stream between two frames.
  abbrev pub between : WtStream
  between = record (filled rest st) { cur_len = 0; buf = []; pts_len = 0 }

  pub between-IsFit : IsFit between
  unfolding payload_need
  between-IsFit = record {
    within = ground (arith, on);
    room = ground (arith, on);
    small = omega arith;
  }

  pub emptied-IsFit : (payload_need st == 0) ≡ true → IsFit (record st { use_len_framing = false })
  emptied-IsFit z = record {
    within = ground (arith, got_within);
    room = omega arith;
    small = fit.small;
  }

  pub emptied_rank :
      (m : ℕ)
      → (payload_need st == 0) ≡ true
      → rank rest st ≤ m
      → rank rest (record st { use_len_framing = false }) < m
  emptied_rank m z h = ground (arith, on, z)

  pub between-rank :
      (m : ℕ)
      → (payload_need st == 0) ≡ false
      → rank rest st ≤ m
      → rank (drop (taken rest st) rest) between < m
  unfolding payload_need
  between-rank m z h = ground (arith, on, z, length-drop (taken rest st) rest)

  pub rank-filled :
      (m : ℕ)
      → (payload_need st == 0) ≡ false
      → (length (filled rest st).buf == payload_need st) ≡ false
      → rank rest st < m + min 1 (length rest)
      → rank (drop (taken rest st) rest) (filled rest st) < m
  rank-filled m z part h = ground (
    arith,
    on,
    z,
    part,
    left_exact,
    length-filled,
    got_within,
    payload_same,
    length-drop (taken rest st) rest,
  )

pub granted : (b : Bool) (A : Type 0) → b ≡ true → (b ≡ false) ⊎ A → A
granted b A ok (inl bad) = absurd (ground (arith, ok, bad))
granted b A ok (inr a) = a

pub collected :
    (st st1 : WtStream) (c : ℕ) (chunk : List ℕ)
    → st1 ≡ record st { cap = c }
    → st.use_len_framing ≡ false
    → length st.buf + length chunk ≤ c
    → IsFit st
    → IsFit (record st1 { buf = (extract_jpegs (st1.buf ++ chunk)).1 })
collected st st1 c chunk same off enough fit = rw same (record {
  within = ground (arith, off, extract_jpegs_left (st.buf ++ chunk), length-append st.buf chunk);
  room = ground (arith, off);
  small = fit.small;
})

-- A stream at the start of a frame.
abbrev pub started : ℕ → ℕ → WtStream → WtStream
started fl c2 st = record st { cur_len = fl; buf = []; pts_len = c2; use_len_framing = true }

pub started-IsFit :
    (fl c2 : ℕ) (st st1 : WtStream) (c : ℕ)
    → st1 ≡ record (started fl c2 st) { cap = c }
    → payload_need (started fl c2 st) ≤ c
    → fl ≤ max_frame_len
    → IsFit st1
unfolding payload_need
started-IsFit fl c2 st st1 c same enough small =
    rw same (record { within = omega arith; room = enough; small = small })

pub rank-started :
    (m fl c2 : ℕ) (rest : List ℕ) (st st1 : WtStream) (c : ℕ)
    → st1 ≡ record (started fl c2 st) { cap = c }
    → 3 * length rest + 2 < m
    → rank (drop c2 rest) st1 < m + min 1 (length (drop c2 rest))
rank-started m fl c2 rest st st1 c same h = ground (arith, length-drop c2 rest)

pub detect_rank :
    (rest : List ℕ) (st : WtStream) (c : ℕ)
    → st.use_len_framing ≡ false
    → (1 ≤ c) × (c ≤ length rest)
    → 1 ≤ length rest
    → 3 * length (drop c rest) + 2 < rank rest st
detect_rank rest st c off uses some_bytes = ground (arith, off, length-drop c rest)
