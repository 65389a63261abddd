-- ===== src/Client/Request.antt =====
-- The CONNECT request: the header lines of client/h3zero_qpack.c and the frames of
-- client/h3zero_client.c. `encode v cap` is `picoquic_varint_encode` into `cap` bytes, with no bytes
-- for 0. A string is the bytes before its final zero, and a buffer that is filled front to back is
-- the list of the bytes in it.
pub mod Laws
mod Runs
use m_quic.Prelude.{
  ℕ, ◌+◌, ◌-◌, ◌≤◌, ◌<◌, ◌^◌, ◌≡◌, ltb, leb, ◌==◌, if◌then◌else◌, Bool, true, false, not, ◌||◌,
}
use m_quic.Prelude.{ℤ, minus_one, List, [], ◌∷◌, ◌++◌, length, Option, none, some}
use m_quic.Prelude.Effect.{◌>=>◌}
use m_quic.Quic.{Quic}

unfoldable pub quic_varint_len : ℕ → ℕ
quic_varint_len v =
    if ltb v (2 ^ 6) then 1 else if ltb v (2 ^ 14) then 2 else if ltb v (2 ^ 30) then 4 else 8

-- `":method"`, `"CONNECT"` and the other strings of the request
abbrev pub method_name : List ℕ
method_name = 58 ∷ 109 ∷ 101 ∷ 116 ∷ 104 ∷ 111 ∷ 100 ∷ []

abbrev pub connect_value : List ℕ
connect_value = 67 ∷ 79 ∷ 78 ∷ 78 ∷ 69 ∷ 67 ∷ 84 ∷ []

abbrev pub protocol_name : List ℕ
protocol_name = 58 ∷ 112 ∷ 114 ∷ 111 ∷ 116 ∷ 111 ∷ 99 ∷ 111 ∷ 108 ∷ []

abbrev pub webtransport_value : List ℕ
webtransport_value = 119 ∷ 101 ∷ 98 ∷ 116 ∷ 114 ∷ 97 ∷ 110 ∷ 115 ∷ 112 ∷ 111 ∷ 114 ∷ 116 ∷ []

abbrev pub scheme_name : List ℕ
scheme_name = 58 ∷ 115 ∷ 99 ∷ 104 ∷ 101 ∷ 109 ∷ 101 ∷ []

abbrev pub https_value : List ℕ
https_value = 104 ∷ 116 ∷ 116 ∷ 112 ∷ 115 ∷ []

abbrev pub path_name : List ℕ
path_name = 58 ∷ 112 ∷ 97 ∷ 116 ∷ 104 ∷ []

abbrev pub authority_name : List ℕ
authority_name = 58 ∷ 97 ∷ 117 ∷ 116 ∷ 104 ∷ 111 ∷ 114 ∷ 105 ∷ 116 ∷ 121 ∷ []

module _ (encode : ℕ → ℕ → List ℕ) where
  -- Appends a number to a buffer of `cap` bytes.
  unfoldable pub write_varint : ℕ → List ℕ → ℕ → Option (List ℕ)
  write_varint cap buf v =
      let w = encode v (cap - length buf) in
      if leb cap (length buf) then none else if length w == 0 then none else some (buf ++ w)

  -- The capacity that a header line needs.
  unfoldable pub needed : List ℕ → List ℕ → ℕ
  needed name value =
      1
      + quic_varint_len (length name)
      + length name
      + quic_varint_len (length value)
      + length value

  -- Appends a header line to a buffer of `cap` bytes.
  unfoldable pub h3zero_qpack_enc_header : ℕ → List ℕ → List ℕ → List ℕ → Option (List ℕ)
  h3zero_qpack_enc_header cap buf name value =
      if ltb (cap - length buf) (needed name value)
      then none
      else write_varint cap (buf ++ (0x00 ∷ [])) (length name)
        >=> (λ p. write_varint cap (p ++ name) (length value))
        >=> (λ p. some (p ++ value))

  -- The five lines of the request, in a buffer of 1024 bytes.
  unfoldable pub connect_lines : List ℕ → List ℕ → Option (List ℕ)
  connect_lines server_name path =
      let line = h3zero_qpack_enc_header 1024 in
      line [] method_name connect_value
      >=> (λ b. line b protocol_name webtransport_value)
      >=> (λ b. line b scheme_name https_value)
      >=> (λ b. line b path_name path)
      >=> (λ b. line b authority_name server_name)

  -- A HEADERS frame around a block, in a buffer of `cap` bytes.
  unfoldable pub headers_frame : ℕ → List ℕ → Option (List ℕ)
  headers_frame cap block =
      write_varint cap [] 0x01
      >=> (λ p. write_varint cap p (length block))
      >=> (λ p. if ltb (cap - length p) (length block) then none else some (p ++ block))

  module _ {W : Type 0} (q : Quic W) where
    -- A frame that was built goes out on a stream.
    abbrev pub send_frame_on : ℕ → Option (List ℕ) → Bool → W → ℤ × W
    send_frame_on stream_id none fin w = (minus_one, w)
    send_frame_on stream_id (some frame) fin w = q.add_to_stream stream_id frame fin w

    -- `cnx` is whether the connection is given, and `none` a string that is NULL.
    unfoldable pub h3zero_client_create_connect_request :
        Bool → ℕ → Option (List ℕ) → Option (List ℕ) → Bool → W → ℤ × W
    h3zero_client_create_connect_request cnx stream_id none path fin w = (minus_one, w)
    h3zero_client_create_connect_request cnx stream_id (some server_name) none fin w =
        (minus_one, w)
    h3zero_client_create_connect_request cnx stream_id (some server_name) (some path) fin w =
        if not cnx then (minus_one, w) else (elim (connect_lines server_name path) [
          | none ↦ (minus_one, w)
          | some block ↦
              (if length block == 0 || ltb 1024 (length block)
                then (minus_one, w)
                else send_frame_on stream_id (headers_frame 1050 block) fin w)
        ])

    unfoldable pub h3zero_create_headers_frame : Bool → ℕ → Option (List ℕ) → Bool → W → ℤ × W
    h3zero_create_headers_frame cnx stream_id none fin w = (minus_one, w)
    h3zero_create_headers_frame cnx stream_id (some headers) fin w =
        if cnx
        then (if length headers == 0
            then (minus_one, w)
            else send_frame_on stream_id (headers_frame 1200 headers) fin w)
        else (minus_one, w)
