-- ===== src/Client/Main/Laws.antt =====
-- What the client's `main` sends.
use m_quic.Prelude.{
  ℕ, ◌+◌, ◌<◌, ◌≡◌, refl, arith, ltb, lt→ltb, leb, ◌==◌, ◌||◌, if◌then◌else◌, true, false, inl, inr,
  is_ok,
}
use m_quic.Prelude.{List, [], ◌∷◌, ◌++◌, length, Option, none, some, Bool-cases}
use m_quic.Prelude.Text.{codes}
use m_quic.Varint.Encode.{varint, varint_size}
use m_quic.Quic.{Quic}
use m_quic.Client.Stream.{Host}
use m_quic.Client.Request.Laws.{Encodes, headers_frame-write}
use m_quic.Client.Options.{CliOpts}
use m_quic.Client.Main.{ClientQuic, authority, connect_text, send_block, send_connect}

-- The lines of the request, each with its end of line.
abbrev pub lines : List (List ℕ) → List ℕ
lines [] = []
lines (l ∷ ls) = l ++ (13 ∷ 10 ∷ lines ls)

abbrev pub request_lines : List ℕ → List ℕ → List (List ℕ)
request_lines auth path =
    codes ":method: CONNECT"
    ∷ codes ":scheme: https"
    ∷ (codes ":authority: " ++ auth)
    ∷ (codes ":path: " ++ path)
    ∷ codes ":protocol: webtransport"
    ∷ []

-- `snprintf` reports a text that is as long as the buffer, or longer, as one that does not fit.
choose_text :
    (text : List ℕ)
    → 0 < length text
    → (if length text == 0 || leb 512 (length text) then none else some text)
      ≡ (if ltb (length text) 512 then some text else none)
choose_text text h = ground arith

connect_text-lines :
    (auth path : List ℕ)
    → connect_text auth path ≡ (
        if ltb (length (lines (request_lines auth path))) 512
        then some (lines (request_lines auth path))
        else none)
unfolding connect_text
connect_text-lines auth path = choose_text (lines (request_lines auth path)) (omega arith)

-- The frame around a block of less than 512 bytes fits.
frame_room :
    (text : List ℕ)
    → ltb (length text) 512 ≡ true
    → leb (1 + varint_size (length text) + length text) 1200 ≡ true
frame_room text h = ground arith

module _ {D W : Type 0} (decode : List ℕ → Option (ℕ × ℕ)) (encode : ℕ → ℕ → List ℕ)
    (encodes : Encodes encode) (host : Host D) (q : Quic W) (net : ClientQuic D W) where
  send_block-text :
      (ctrl_id : ℕ) (text : List ℕ) (w : W)
      → 0 < length text
      → let (ret, w1) = q.add_to_stream ctrl_id (1 ∷ (varint (length text) ++ text)) false w in
        send_block decode encode host q net ctrl_id
          (if ltb (length text) 512 then some text else none)
          w
        ≡ (if ltb (length text) 512 then (is_ok ret, w1) else (false, w))
  unfolding send_block
  send_block-text ctrl_id text w h = elim (Bool-cases (ltb (length text) 512)) [
    | inl short ↦ rw short (
        rw
          (
            headers_frame-write encode encodes q true ctrl_id text false w (ground (arith, short)),
            lt→ltb 0 _ h,
            frame_room text short,
          )
          refl)
    | inr long ↦ rw long
  ]

  -- The CONNECT request is one write on the next bidirectional stream: a HEADERS frame around the
  -- five lines of the request, with the authority cut to 255 bytes. If the lines fill 512 bytes or
  -- more, nothing is written. The answer is whether the write was accepted.
  pub send_connect-request :
      (sni_host : List ℕ) (opt : CliOpts) (w : W)
      → let text = lines (request_lines (authority sni_host opt.port) opt.path) in
        let (ret, w1) =
          q.add_to_stream
            (q.next_local_stream_id false w)
            (1 ∷ (varint (length text) ++ text))
            false
            w in
        send_connect decode encode host q net sni_host opt w
        ≡ (if ltb (length text) 512 then (is_ok ret, w1) else (false, w))
  unfolding send_connect
  send_connect-request sni_host opt w =
      let text = lines (request_lines (authority sni_host opt.port) opt.path) in
      rw (connect_text-lines (authority sni_host opt.port) opt.path)
        (send_block-text (q.next_local_stream_id false w) text w (omega arith))
