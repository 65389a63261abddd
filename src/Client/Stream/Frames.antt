-- ===== src/Client/Stream/Frames.antt =====
-- Frames that come behind their lengths on a WebTransport stream, client/wt_client.c: what is on the
-- wire, what `wt_handle_stream_data` saves of it, and the bytes that its rounds look at.
pub mod Rounds
pub mod Saves
pub mod Lost
pub mod Header
mod Runs
use m_quic.Prelude.{
  ℕ, zero, suc, ◌+◌, ◌-◌, ◌*◌, ◌/◌, ◌^◌, ◌%◌, ◌<◌, ◌≤◌, ◌≡◌, refl, ◌∙◌, sym, ap, arith, ltb, leb,
  ◌==◌, if◌then◌else◌, if-true, if-false, Bool, true, false, not, ◌&&◌, ◌||◌, ◌⊎◌, inl, inr, ℤ, pos,
  bit_and,
}
use m_quic.Prelude.{
  List, [], ◌∷◌, ◌++◌, length, take, drop, All, get_or, Option, none, some, Bool-cases,
  length-append, append_assoc, append-nil, take-append, drop-append, length-drop, drop_within,
}
use m_quic.Prelude.Bits.{bit_and_top}
use m_quic.Varint.{wt_varint_decode}
use m_quic.Varint.Encode.{varint, varint_size, length-varint}
use m_quic.Varint.RoundTrip.{wt_varint_decode-varint}
use m_quic.Client.Stream.Rank.{taken}
use m_quic.Client.Stream.{
  Host, WtStream, find_stream, put_stream, get_stream, wt_handle_stream_data, App, done, again,
  payload_need, max_frame_len, sub64, save_frame, grow, payload_round, start_frame, take_length,
  detect_round, stream_round, stream_loop, is_full,
}

-- Frames on the wire, each behind its length.
unfoldable pub wires : List (List ℕ) → List ℕ
wires [] = []
wires (g ∷ gs) = varint (length g) ++ (g ++ wires gs)

-- How many bytes the handler takes for a time stamp at the front of a frame.
abbrev pub stamp_size : List ℕ → ℕ
stamp_size g = elim (wt_varint_decode g) [ none ↦ 0 | some (dummy, c) ↦ c ]

-- What it saves of the frame.
abbrev pub body : List ℕ → List ℕ
body g = drop (stamp_size g) g

abbrev pub bodies : ℕ → List (List ℕ) → List (ℕ × List ℕ)
bodies k [] = []
bodies k (g ∷ gs) = (k, body g) ∷ bodies (k + 1) gs

-- A frame of more than eight bytes and at most 32 MB.
abbrev pub IsFrame : List ℕ → Type 0
IsFrame g = (8 < length g) × (length g ≤ max_frame_len)

-- Behind the header, and between two frames.
pub record IsBetween (st : WtStream) : Type 0 where
  pub opened : st.header_ok ≡ true
  pub no_length : st.cur_len ≡ 0

pub stamp_size-append : (g rest : List ℕ) → 8 < length g → stamp_size (g ++ rest) ≡ stamp_size g
unfolding wt_varint_decode
stamp_size-append [] rest h = absurd (omega arith)
stamp_size-append (b ∷ g) rest h = ground (arith, length-append g rest)

pub stamp_size_le : (g : List ℕ) → stamp_size g ≤ 8
unfolding wt_varint_decode
stamp_size_le g = ground arith

pub first_byte : (v : ℕ) (rest : List ℕ) → get_or (varint v ++ rest) 0 0 < 256
unfolding varint
first_byte v rest = ground arith

short_power : (q : ℕ) → q < 4 → 2 ^ q ≤ 8
short_power zero h = omega arith
short_power (suc zero) h = omega arith
short_power (suc (suc zero)) h = omega arith
short_power (suc (suc (suc zero))) h = omega arith
short_power (suc (suc (suc (suc q)))) h = absurd (omega arith)

pub need_len_le : (b : ℕ) → b < 256 → 2 ^ (bit_and b 0xC0 / 2 ^ 6) ≤ 8
need_len_le b h = rw (bit_and_top b h) (short_power (b / 64 * 64 / 2 ^ 6) (omega arith))

pub length-body : (g : List ℕ) → length (body g) ≡ length g - stamp_size g
length-body g = length-drop (stamp_size g) g

pub body-append :
    (g rest : List ℕ) → 8 < length g → drop (stamp_size g) (g ++ rest) ≡ body g ++ rest
body-append g rest h = drop_within (stamp_size g) g rest (omega (arith, stamp_size_le g))

pub need_size :
    (g : List ℕ) (st : WtStream)
    → IsFrame g
    → st.cur_len ≡ length g
    → st.pts_len ≡ stamp_size g
    → payload_need st ≡ length (body g)
unfolding payload_need
need_size g st frame len pts = ground (arith, length-body g, stamp_size_le g, frame, len, pts)

pub length-wires : (gs : List (List ℕ)) → All IsFrame gs → length gs ≤ length (wires gs)
unfolding wires
length-wires [] h = omega arith
length-wires (g ∷ gs) h = omega (
  arith,
  h.0,
  length-wires gs h.1,
  length-append (varint (length g)) (g ++ wires gs),
  length-append g (wires gs),
)

module _ {D : Type 0} (host : Host D) where
  -- The system has the memory and opens the files.
  pub record Grants : Type 0 where
    pub memory : (n : ℕ) (d : D) → (host.alloc n d).0 ≡ true
    pub opens : (n : ℕ) (d : D) → (host.fopen n d).0 ≡ true

  -- `app'` is `app` with the frames saved.
  pub record HasSaved (gs : List (List ℕ)) (app app' : App D) : Type 0 where
    pub wrote : app'.files ≡ app.files ++ bodies app.saved gs
    pub counted : app'.saved ≡ app.saved + length gs
    pub no_limit : app'.max_frames ≡ 0
