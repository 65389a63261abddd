-- ===== src/Client/Request/Laws.antt =====
-- What the request's header lines and frames are, and when there is room for them.
use m_quic.Prelude.{
  ℕ, ◌+◌, ◌-◌, ◌≤◌, ◌<◌, ◌^◌, ◌≡◌, refl, ◌∙◌, ap, arith, ltb, leb, ◌==◌, if◌then◌else◌, Bool, true,
  false, ◌&&◌,
}
use m_quic.Prelude.{
  minus_one, List, [], ◌∷◌, ◌++◌, length, Option, none, some, length-append, append_assoc,
  Bool-cases, if-false, inl, inr,
}
use m_quic.Varint.Encode.{varint, varint_size, length-varint}
use m_quic.Prelude.Effect.{◌>=>◌}
use m_quic.Quic.{Quic}
use m_quic.Client.Request.{quic_varint_len, write_varint, needed, h3zero_qpack_enc_header}
use m_quic.Client.Request.{connect_lines, headers_frame, h3zero_create_headers_frame}
use m_quic.Client.Request.{h3zero_client_create_connect_request, method_name, connect_value}
use m_quic.Client.Request.{
  protocol_name, webtransport_value, scheme_name, https_value, path_name, authority_name,
}

-- picoquic's encoder writes the encoding of RFC 9000 where it fits, and nothing where it does not.
abbrev pub Encodes : (ℕ → ℕ → List ℕ) → Type 0
Encodes encode =
    (v cap : ℕ) → v < 2 ^ 62 → encode v cap ≡ (if ltb cap (varint_size v) then [] else varint v)

-- A header line: the flag, the name and the value, each string behind its length.
abbrev pub line_bytes : List ℕ → List ℕ → List ℕ
line_bytes name value = 0x00 ∷ ((varint (length name) ++ name) ++ (varint (length value) ++ value))

line_size :
    (name value : List ℕ)
    → length (line_bytes name value)
      ≡ 1 + varint_size (length name) + length name + varint_size (length value) + length value
line_size name value = ground (
  arith,
  length-append (varint (length name) ++ name) (varint (length value) ++ value),
  length-append (varint (length name)) name,
  length-append (varint (length value)) value,
  length-varint (length name),
  length-varint (length value),
)

line_needed :
    (encode : ℕ → ℕ → List ℕ) (name value : List ℕ)
    → needed encode name value ≡ length (line_bytes name value)
unfolding needed quic_varint_len
line_needed encode name value = omega (arith, line_size name value)

-- The lines of the request before the last one, before the last two, and so on.
abbrev lines_two : List ℕ
lines_two = line_bytes method_name connect_value ++ line_bytes protocol_name webtransport_value

abbrev lines_three : List ℕ
lines_three = lines_two ++ line_bytes scheme_name https_value

abbrev lines_four : List ℕ → List ℕ
lines_four path = lines_three ++ line_bytes path_name path

-- The five header lines of the request.
unfoldable pub connect_block : List ℕ → List ℕ → List ℕ
connect_block server_name path = lines_four path ++ line_bytes authority_name server_name

varint_one : varint 1 ≡ 1 ∷ []
unfolding varint
varint_one = refl

regroup :
    (buf nl name vl value : List ℕ)
    → ((((buf ++ (0x00 ∷ [])) ++ nl) ++ name) ++ vl) ++ value
      ≡ buf ++ (0x00 ∷ ((nl ++ name) ++ (vl ++ value)))
regroup buf nl name vl value = simp append_assoc refl

module _ (encode : ℕ → ℕ → List ℕ) (encodes : Encodes encode) where
  write_varint-varint :
      (cap v : ℕ) (buf : List ℕ)
      → v < 2 ^ 62
      → write_varint encode cap buf v
        ≡ (if ltb (cap - length buf) (varint_size v) then none else some (buf ++ varint v))
  unfolding write_varint
  write_varint-varint cap v buf h = ground (arith, encodes v (cap - length buf) h, length-varint v)

  write_varint_fits :
      (cap v : ℕ) (buf : List ℕ)
      → v < 2 ^ 62
      → length buf + varint_size v ≤ cap
      → write_varint encode cap buf v ≡ some (buf ++ varint v)
  write_varint_fits cap v buf h fits =
      write_varint-varint cap v buf h ∙ if-false none (some (buf ++ varint v)) (ground arith)

  line_fits :
      (cap : ℕ) (buf name value : List ℕ)
      → length name < 2 ^ 62
      → length value < 2 ^ 62
      → length buf + length (line_bytes name value) ≤ cap
      → h3zero_qpack_enc_header encode cap buf name value ≡ some (buf ++ line_bytes name value)
  unfolding h3zero_qpack_enc_header
  line_fits cap buf name value hn hv fits =
      let nl = varint (length name) in
      let vl = varint (length value) in
      let b1 = buf ++ (0x00 ∷ []) in
      let len1 = length-append buf (0x00 ∷ []) in
      let total : length (line_bytes name value)
          ≡ 1
            + varint_size (length name)
            + length name
            + varint_size (length value)
            + length value =
        line_size name value in
      let room : ltb (cap - length buf) (needed encode name value) ≡ false =
        (ground (arith, line_needed encode name value)) in
      let w1 = write_varint_fits cap (length name) b1 hn (omega (arith, len1, total)) in
      let len2 = length-append b1 nl in
      let len3 = length-append (b1 ++ nl) name in
      let w2 =
        write_varint_fits cap (length value) ((b1 ++ nl) ++ name) hv
          (omega (arith, len1, len2, len3, length-varint (length name), total)) in
      if-false _ _ room ∙ rw (w1, w2) (ap some (regroup buf nl name vl value))

  -- With room for all of it a header line is appended: the flag, the length and the bytes of the
  -- name, the length and the bytes of the value, and no byte more. Without that room there is none.
  h3zero_qpack_enc_header-line :
      (cap : ℕ) (buf name value : List ℕ)
      → length name < 2 ^ 62
      → length value < 2 ^ 62
      → h3zero_qpack_enc_header encode cap buf name value ≡ (
          if ltb (cap - length buf) (length (line_bytes name value))
          then none
          else some (buf ++ line_bytes name value))
  unfolding h3zero_qpack_enc_header
  h3zero_qpack_enc_header-line cap buf name value hn hv =
      let same = line_needed encode name value in
      elim (Bool-cases (ltb (cap - length buf) (length (line_bytes name value)))) [
        | inl full ↦ rw (same, full) refl
        | inr room ↦
            rw room (line_fits cap buf name value hn hv (ground (arith, line_size name value)))
      ]

  -- A HEADERS frame is its type, the length of the block and the block, if the buffer holds it whole.
  headers_frame-bytes :
      (cap : ℕ) (block : List ℕ)
      → length block < 2 ^ 62
      → headers_frame encode cap block ≡ (
          if ltb cap (1 + varint_size (length block) + length block)
          then none
          else some (1 ∷ (varint (length block) ++ block)))
  unfolding headers_frame
  headers_frame-bytes cap block h = ground (
    arith,
    write_varint-varint cap 1 [],
    write_varint-varint cap (length block) (1 ∷ []),
    varint_one,
    length-varint (length block),
  )

  -- A buffer of 1024 bytes with what has been written, unless it was too much.
  abbrev within : List ℕ → Option (List ℕ)
  within buf = if ltb 1024 (length buf) then none else some buf

  one_more :
      (o : Option (List ℕ)) (buf name value : List ℕ)
      → length name < 2 ^ 62
      → length value < 2 ^ 62
      → o ≡ within buf
      → (o >=> λ b. h3zero_qpack_enc_header encode 1024 b name value)
        ≡ within (buf ++ line_bytes name value)
  one_more o buf name value hn hv e = ground (
    arith,
    e,
    h3zero_qpack_enc_header-line 1024 buf name value,
    length-append buf (line_bytes name value),
    line_size name value,
  )

  connect_lines-block :
      (server_name path : List ℕ)
      → length server_name < 2 ^ 62
      → length path < 2 ^ 62
      → connect_lines encode server_name path ≡ within (connect_block server_name path)
  unfolding connect_lines connect_block
  connect_lines-block server_name path hs hp =
      one_more _ (lines_four path) authority_name server_name (omega arith) hs (
        one_more _ lines_three path_name path (omega arith) hp (
          one_more _ lines_two scheme_name https_value (omega arith) (omega arith) (
            one_more _ (line_bytes method_name connect_value) protocol_name webtransport_value
              (omega arith) (omega arith)
              (h3zero_qpack_enc_header-line 1024 [] method_name connect_value (omega arith)
                (omega arith)))))

  block_size : (server_name path : List ℕ) → 5 ≤ length (connect_block server_name path)
  unfolding connect_block
  block_size server_name path = ground (
    arith,
    length-append (lines_four path) (line_bytes authority_name server_name),
    line_size authority_name server_name,
  )

  frame_fits :
      (block : List ℕ)
      → length block ≤ 1024
      → headers_frame encode 1050 block ≡ some (1 ∷ (varint (length block) ++ block))
  frame_fits block h = headers_frame-bytes 1050 block (omega arith) ∙ ground arith

  module _ {W : Type 0} (q : Quic W) where
    -- The request for a server and a path whose five header lines fill at most 1024 bytes is one
    -- write of one HEADERS frame around these lines, in their order, and the answer is the stream's.
    -- With more than 1024 bytes the answer is -1 and nothing is written.
    pub connect_request-frame :
        (sid : ℕ) (server_name path : List ℕ) (fin : Bool) (w : W)
        → length server_name < 2 ^ 62
        → length path < 2 ^ 62
        → let block = connect_block server_name path in
          h3zero_client_create_connect_request encode q true sid
            (some server_name)
            (some path)
            fin
            w
          ≡ (if ltb 1024 (length block)
              then (minus_one, w)
              else q.add_to_stream sid (1 ∷ (varint (length block) ++ block)) fin w)
    unfolding h3zero_client_create_connect_request
    connect_request-frame sid server_name path fin w hs hp =
        let block = connect_block server_name path in
        let lines = connect_lines-block server_name path hs hp in
        elim (Bool-cases (ltb 1024 (length block))) [
          | inl long ↦ rw (lines, long) refl
          | inr short ↦
              let full : (length block == 0) ≡ false =
                ground (arith, block_size server_name path) in
              rw (lines, short, full, short, frame_fits block (ground (arith, short))) refl
        ]

    -- A HEADERS frame for a block of the caller is one write of the type, the length and the block,
    -- if these fill at most 1200 bytes; for a longer one, an empty one and without a connection the
    -- answer is -1 and nothing is written.
    pub headers_frame-write :
        (cnx : Bool) (sid : ℕ) (block : List ℕ) (fin : Bool) (w : W)
        → length block < 2 ^ 62
        → h3zero_create_headers_frame encode q cnx sid (some block) fin w ≡ (
            if cnx
              && ltb 0 (length block)
              && leb (1 + varint_size (length block) + length block) 1200
            then q.add_to_stream sid (1 ∷ (varint (length block) ++ block)) fin w
            else (minus_one, w))
    unfolding h3zero_create_headers_frame
    headers_frame-write cnx sid block fin w h = ground (arith, headers_frame-bytes 1200 block h)
