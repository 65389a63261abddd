-- ===== src/WebTransport.antt =====
-- The WebTransport layer, src/pico_webtransport.c: stream contexts, the server's answer to CONNECT
-- and the capsules. A buffer that is filled front to back is the list of the bytes in it. A stream
-- context that may be NULL is an `Option`, and `cnx` says whether the connection is given.
pub mod Receive
pub mod Bounds
pub mod Sends
mod Runs
use m_quic.Prelude.{
  ℕ, ◌+◌, ◌-◌, ◌*◌, ◌^◌, ◌%◌, ltb, ◌==◌, if◌then◌else◌, Bool, true, false, not, bit_or,
}
use m_quic.Prelude.{ℤ, pos, minus_one, is_ok, List, [], ◌∷◌, ◌++◌, length, take, drop, get_or}
use m_quic.Prelude.{Option, none, some}
use m_quic.Varint.{byte, picowt_varint_encode, picowt_varint_decode}
use m_quic.Prelude.Effect.{◌>=>◌}
use m_quic.Quic.{Quic}

abbrev pub capsule_close_session : ℕ
capsule_close_session = 0x2843

abbrev pub capsule_drain_session : ℕ
capsule_drain_session = 0x78ae

-- The fields of `h3zero_stream_ctx_t` that are set here; the rest is zero. The HTTP/3 context that
-- it points to is named by a number.
pub record StreamCtx : Type 0 where
  pub stream_id : ℕ
  pub path_callback_ctx : Option ℕ

-- `picowt_capsule_t` without its HTTP/3 part, which stays zero. The message points into the input.
pub record Capsule : Type 0 where
  pub error_code : ℕ
  pub error_msg : Option (List ℕ)
  pub error_msg_len : ℕ

-- `memset` to zero
abbrev pub no_capsule : Capsule
no_capsule = record { error_code = 0; error_msg = none; error_msg_len = 0 }

-- The transport parameters that the client announces; the rest is zero.
pub record TransportParameters : Type 0 where
  pub initial_max_data : ℕ
  pub initial_max_stream_data_uni : ℕ
  pub initial_max_stream_data_bidi_local : ℕ
  pub initial_max_stream_data_bidi_remote : ℕ

-- `set` is `picoquic_set_transport_parameters`.
unfoldable pub picowt_set_transport_parameters :
    {W : Type 0} → (TransportParameters → W → W) → Bool → W → W
picowt_set_transport_parameters set cnx w =
    if cnx
    then set
        (record {
          initial_max_data = 64 * 1024 * 1024;
          initial_max_stream_data_uni = 16 * 1024 * 1024;
          initial_max_stream_data_bidi_local = 16 * 1024 * 1024;
          initial_max_stream_data_bidi_remote = 16 * 1024 * 1024;
        })
        w
    else w

-- `allocated` is whether `malloc` gave the memory.
unfoldable pub picowt_set_control_stream : Bool → Option ℕ → Option StreamCtx
picowt_set_control_stream allocated h3_ctx =
    if allocated then some (record { stream_id = 0; path_callback_ctx = h3_ctx }) else none

-- Appends a number to what is in a buffer of `cap` bytes; `none` without room.
unfoldable pub put_varint : ℕ → List ℕ → ℕ → Option (List ℕ)
put_varint cap buf v =
    let written = picowt_varint_encode v (cap - length buf) in
    if length written == 0 then none else some (buf ++ written)

-- Appends bytes; `none` without room.
unfoldable pub put_bytes : ℕ → List ℕ → List ℕ → Option (List ℕ)
put_bytes cap buf bytes =
    if ltb (cap - length buf) (length bytes) then none else some (buf ++ bytes)

-- The WebTransport header of a unidirectional stream, in a buffer of 16 bytes.
unfoldable pub uni_header : ℕ → Option (List ℕ)
uni_header control_stream_id = put_varint 16 [] 0x54 >=> λ hdr. put_varint 16 hdr control_stream_id

-- `":status"` and `"200"`
abbrev pub status_name : List ℕ
status_name = 58 ∷ 115 ∷ 116 ∷ 97 ∷ 116 ∷ 117 ∷ 115 ∷ []

abbrev pub status_value : List ℕ
status_value = 50 ∷ 48 ∷ 48 ∷ []

-- The header block with the one line `:status: 200`.
unfoldable pub qpack_min_status_200 : ℕ → Option (List ℕ)
qpack_min_status_200 cap =
    put_varint cap [] 0
    >=> (λ p. put_varint cap p 0)
    >=> (λ p. put_bytes cap p (0x10 ∷ []))
    >=> (λ p. put_varint cap p (length status_name))
    >=> (λ p. put_bytes cap p status_name)
    >=> (λ p. put_varint cap p (length status_value))
    >=> (λ p. put_bytes cap p status_value)

-- The HEADERS frame around a block, in a buffer of 300 bytes.
unfoldable pub status_frame : List ℕ → Option (List ℕ)
status_frame block =
    put_varint 300 [] 0x1
    >=> (λ p. put_varint 300 p (length block))
    >=> (λ p. put_bytes 300 p block)

-- A close capsule in a buffer of 1024 bytes. The type and the length are appended without a test.
unfoldable pub close_capsule : ℕ → List ℕ → Option (List ℕ)
close_capsule picowt_err msg =
    let kind = picowt_varint_encode capsule_close_session 1024 in
    let buf = kind ++ picowt_varint_encode (4 + length msg) (1024 - length kind) in
    if ltb (1024 - length buf) (4 + length msg)
    then none
    else some (
        buf
        ++ (byte picowt_err 24 ∷ byte picowt_err 16 ∷ byte picowt_err 8 ∷ byte picowt_err 0 ∷ msg))

-- `((uint32_t)p[0]<<24)|((uint32_t)p[1]<<16)|((uint32_t)p[2]<<8)|p[3]`, from the bytes that there are
-- from `p` to the end of the input. A read past that end gives `past_input`, which is no 32-bit number.
abbrev pub past_input : ℕ
past_input = 2 ^ 32

unfoldable pub read_u32 : List ℕ → ℕ
read_u32 p =
    if ltb (length p) 4
    then past_input
    else bit_or
        (bit_or (bit_or (get_or p 0 0 * 2 ^ 24 % 2 ^ 32) (get_or p 1 0 * 2 ^ 16 % 2 ^ 32))
          (get_or p 2 0 * 2 ^ 8 % 2 ^ 32))
        (get_or p 3 0)

-- What the body of `l` bytes at `p` says, for a capsule of type `t`.
unfoldable pub capsule_body : ℕ → ℕ → List ℕ → ℤ × Capsule
capsule_body t l p =
    if ltb (length p) l
    then (minus_one, no_capsule)
    else if t == capsule_close_session
    then (if ltb l 4 then (minus_one, no_capsule) else (
      pos 0,
      record {
        error_code = read_u32 p;
        error_msg = if ltb 4 l then some (take (l - 4) (drop 4 p)) else none;
        error_msg_len = if ltb 4 l then l - 4 else 0;
      },
    ))
    else (pos 0, no_capsule)

-- `picowt_receive_capsule`: the answer, and the capsule if there is one to fill.
unfoldable pub picowt_receive_capsule : Option (List ℕ) → Option Capsule → ℤ × Option Capsule
picowt_receive_capsule bytes none = (minus_one, none)
picowt_receive_capsule none (some c) = (minus_one, some c)
picowt_receive_capsule (some p) (some c) =
    if length p == 0 then (minus_one, some c) else elim (picowt_varint_decode p) [
      | none ↦ (minus_one, some no_capsule)
      | some (t, n1) ↦ elim (picowt_varint_decode (drop n1 p)) [
        | none ↦ (minus_one, some no_capsule)
        | some (l, n2) ↦ (
          (capsule_body t l (drop n2 (drop n1 p))).0,
          some (capsule_body t l (drop n2 (drop n1 p))).1,
        )
      ]
    ]

-- `picowt_release_capsule` and `picowt_deregister` do nothing.
unfoldable pub picowt_release_capsule : Capsule → Capsule
picowt_release_capsule c = c

unfoldable pub picowt_deregister : {W : Type 0} → W → W
picowt_deregister w = w

module _ {W : Type 0} (q : Quic W) where
  -- A buffer that was filled, or not, goes out on a stream.
  abbrev pub send_buffer : ℕ → Option (List ℕ) → W → ℤ × W
  send_buffer stream_id none w = (minus_one, w)
  send_buffer stream_id (some buf) w = q.add_to_stream stream_id buf false w

  -- `is_bidir` is handed on as picoquic's `is_unidir`, as the source does.
  unfoldable pub picowt_create_local_stream : Bool → Option ℕ → ℕ → Bool → W → Option StreamCtx × W
  picowt_create_local_stream is_bidir h3_ctx control_stream_id allocated w =
      let sid = q.next_local_stream_id is_bidir w in
      let sc : StreamCtx = record { stream_id = sid; path_callback_ctx = h3_ctx } in
      let (ret, w') = send_buffer sid (uni_header control_stream_id) w in
      if not allocated
      then (none, w)
      else if is_bidir
      then (some sc, w)
      else if is_ok ret
      then (some sc, w')
      else (none, w')

  unfoldable pub h3_send_status_200_headers : ℕ → W → ℤ × W
  h3_send_status_200_headers stream_id =
      send_buffer stream_id (qpack_min_status_200 256 >=> status_frame)

  unfoldable pub picowt_connect : Bool → Option StreamCtx → W → ℤ × W
  picowt_connect cnx none w = (minus_one, w)
  picowt_connect cnx (some sc) w =
      let (ret, w') = h3_send_status_200_headers sc.stream_id w in
      if not cnx then (minus_one, w) else if is_ok ret then (pos 0, w') else (minus_one, w')

  -- `err_msg` is the text before the final zero, or NULL.
  unfoldable pub picowt_send_close_session_message :
      Bool → Option StreamCtx → ℕ → Option (List ℕ) → W → ℤ × W
  picowt_send_close_session_message cnx none picowt_err err_msg w = (minus_one, w)
  picowt_send_close_session_message cnx (some sc) picowt_err err_msg w =
      let msg : List ℕ = elim err_msg [ none ↦ [] | some text ↦ text ] in
      if cnx then send_buffer sc.stream_id (close_capsule picowt_err msg) w else (minus_one, w)

  unfoldable pub picowt_send_drain_session_message : Bool → Option StreamCtx → W → ℤ × W
  picowt_send_drain_session_message cnx none w = (minus_one, w)
  picowt_send_drain_session_message cnx (some sc) w =
      let kind = picowt_varint_encode capsule_drain_session 16 in
      let buf = kind ++ picowt_varint_encode 0 (16 - length kind) in
      if cnx then q.add_to_stream sc.stream_id buf false w else (minus_one, w)
