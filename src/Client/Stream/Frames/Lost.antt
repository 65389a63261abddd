-- ===== src/Client/Stream/Frames/Lost.antt =====
-- What `wt_handle_stream_data` of client/wt_client.c does with the part of an image that it has
-- collected, when more bytes come.
use m_quic.Prelude.{ℕ, ◌≡◌, ◌∙◌, arith, ◌==◌, if-true, if-false, true, false, not, ◌&&◌}
use m_quic.Prelude.{List}
use m_quic.Client.Stream.{Host, WtStream, App, detect_round, stream_round}

module _ {D : Type 0} (host : Host D) where
  pub stream_round-detect :
      (rest : List ℕ) (st : WtStream) (app : App D)
      → st.header_ok ≡ true
      → st.use_len_framing ≡ false
      → st.cur_len ≡ 0
      → stream_round host rest st app ≡ detect_round host rest st app
  unfolding stream_round
  stream_round-detect rest st app opened off no_length =
      let past_header : not st.header_ok ≡ false = ground (arith, opened) in
      let at_length : (not st.use_len_framing && st.cur_len == 0) ≡ true =
        ground (arith, off, no_length) in
      if-false _ _ past_header ∙ if-true _ _ at_length
