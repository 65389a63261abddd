-- ===== src/WebTransport/Sends.antt =====
-- What the WebTransport layer puts on streams.
use m_quic.Prelude.{ℕ, ◌<◌, ◌≡◌, refl, ◌∙◌, arith, ◌==◌, if◌then◌else◌, ◌⊎◌, inl, inr, ◌^◌}
use m_quic.Prelude.{pos, minus_one, is_ok, List, [], ◌∷◌, ◌++◌, length, Bool, true, false}
use m_quic.Prelude.{Option, none, some, Bool-cases}
use m_quic.Varint.{wt_varint_encode, picowt_varint_encode}
use m_quic.Varint.Encode.{
  varint, length-varint, picowt_varint_encode-varint, wt_varint_encode-varint,
}
use m_quic.Prelude.Effect.{◌>=>◌}
use m_quic.Quic.{Quic}
use m_quic.Quic.Laws.{Write, Queues}
use m_quic.WebTransport.{
  StreamCtx, put_varint, put_bytes, uni_header, qpack_min_status_200, status_frame,
}
use m_quic.WebTransport.{send_buffer, picowt_create_local_stream}
use m_quic.WebTransport.{h3_send_status_200_headers, picowt_connect}

-- The HEADERS frame with `:status: 200`.
abbrev pub ok_frame : List ℕ
ok_frame = 1 ∷ 15 ∷ 0 ∷ 0 ∷ 16 ∷ 7 ∷ 58 ∷ 115 ∷ 116 ∷ 97 ∷ 116 ∷ 117 ∷ 115 ∷ 3 ∷ 50 ∷ 48 ∷ 48 ∷ []

status_frame-bytes : (qpack_min_status_200 256 >=> status_frame) ≡ some ok_frame
unfolding qpack_min_status_200 status_frame put_varint put_bytes picowt_varint_encode
status_frame-bytes = refl

-- A number fits behind two bytes in a buffer of 16.
put_varint-second :
    (a b v : ℕ) → v < 2 ^ 64 → put_varint 16 (a ∷ b ∷ []) v ≡ some (a ∷ b ∷ varint v)
unfolding put_varint
put_varint-second a b v h =
    let e : picowt_varint_encode v 14 ≡ varint v =
      picowt_varint_encode-varint v 14 h ∙ ground arith in
    let some_bytes : (length (varint v) == 0) ≡ false = ground (arith, length-varint v) in
    rw (e, some_bytes) refl

stream_type : put_varint 16 [] 0x54 ≡ some (0x40 ∷ 0x54 ∷ [])
unfolding put_varint picowt_varint_encode
stream_type = refl

uni_header-bytes :
    (control : ℕ)
    → control < 2 ^ 64
    → uni_header control ≡ some (0x40 ∷ 0x54 ∷ wt_varint_encode control)
unfolding uni_header
uni_header-bytes control h =
    rw (stream_type, wt_varint_encode-varint control) (put_varint-second 0x40 0x54 control h)

module _ {W : Type 0} (q : Quic W) (written : W → List Write) (queues : Queues q written) where
  send_buffer-queues :
      (sid : ℕ) (buf : List ℕ) (w : W)
      → written (send_buffer q sid (some buf) w).1 ≡ (
          if is_ok (send_buffer q sid (some buf) w).0
          then written w ++ (record { sid = sid; bytes = buf; fin = false } ∷ [])
          else written w)
  send_buffer-queues sid buf w = elim (Bool-cases (is_ok (q.add_to_stream sid buf false w).0)) [
    | inl ok ↦ ground (arith, ok, queues.accepts sid buf false w)
    | inr bad ↦ ground (arith, bad, queues.refuses sid buf false w)
  ]

  -- The answer to a CONNECT is 0 or -1. It is 0 only with a connection and a stream, and then one
  -- HEADERS frame with status 200 has been queued on that stream and nothing else; otherwise nothing
  -- has been queued.
  pub picowt_connect-queues :
      (cnx : Bool) (sc : Option StreamCtx) (w : W)
      → ((s : StreamCtx) × (sc ≡ some s)
          × (cnx ≡ true)
          × ((picowt_connect q cnx sc w).0 ≡ pos 0)
          × (written (picowt_connect q cnx sc w).1
              ≡ written w ++ (record { sid = s.stream_id; bytes = ok_frame; fin = false } ∷ [])))
        ⊎ (((picowt_connect q cnx sc w).0 ≡ minus_one)
            × (written (picowt_connect q cnx sc w).1 ≡ written w))
  unfolding picowt_connect h3_send_status_200_headers
  picowt_connect-queues cnx none w = inr (refl, refl)
  picowt_connect-queues false (some s) w = inr (refl, refl)
  picowt_connect-queues true (some s) w =
      let queued = send_buffer-queues s.stream_id ok_frame w in
      elim (Bool-cases (is_ok (send_buffer q s.stream_id (some ok_frame) w).0)) [
        | inl ok ↦ inl (
          s,
          refl,
          refl,
          rw (status_frame-bytes, ok) refl,
          rw (status_frame-bytes, ok) ground (arith, queued, ok),
        )
        | inr bad ↦ inr (
          rw (status_frame-bytes, bad) refl,
          rw (status_frame-bytes, bad) ground (arith, queued, bad),
        )
      ]

  -- A local stream: without memory there is none and nothing is queued. A bidirectional one is made
  -- without a write. A unidirectional one is made if its header, the WebTransport stream type and the
  -- control stream's id, is accepted, and then that header alone has been queued on it; if it is
  -- refused, there is no stream and nothing is queued.
  picowt_create_local_stream-queues :
      (bidir allocated : Bool) (h3 : Option ℕ) (control : ℕ) (w : W)
      → control < 2 ^ 64
      → let sid = q.next_local_stream_id bidir w in
        let (out, w') = picowt_create_local_stream q bidir h3 control allocated w in
        let sc : StreamCtx = record { stream_id = sid; path_callback_ctx = h3 } in
        (((out ≡ some sc) × (bidir ≡ true) × (written w' ≡ written w))
          ⊎ ((out ≡ some sc)
              × (bidir ≡ false)
              × (written w'
                  ≡ written w
                    ++ (record {
                      sid = sid;
                      bytes = 0x40 ∷ 0x54 ∷ wt_varint_encode control;
                      fin = false;
                    }
                        ∷ []))))
        ⊎ ((out ≡ none) × (written w' ≡ written w))
  unfolding picowt_create_local_stream
  picowt_create_local_stream-queues bidir false h3 control w h = inr (refl, refl)
  picowt_create_local_stream-queues true true h3 control w h = inl (inl (refl, refl, refl))
  picowt_create_local_stream-queues false true h3 control w h =
      let sid = q.next_local_stream_id false w in
      let header = 0x40 ∷ 0x54 ∷ wt_varint_encode control in
      let queued = send_buffer-queues sid header w in
      elim (Bool-cases (is_ok (send_buffer q sid (some header) w).0)) [
        | inl ok ↦ inl (
            inr (
              rw (uni_header-bytes control h, ok) refl,
              refl,
              rw (uni_header-bytes control h, ok) (ground (arith, queued, ok)),
            ))
        | inr bad ↦ inr (
          rw (uni_header-bytes control h, bad) refl,
          rw (uni_header-bytes control h, bad) (ground (arith, queued, bad)),
        )
      ]
