-- ===== src/ProtocolInit.antt =====
-- `h3zero_protocol_init` of src/h3zero_common.c, which the repository has rewritten in its copy of
-- picoquic's HTTP/3 layer: the three unidirectional streams at the start of a connection. The rest
-- of that layer is picoquic's; `settings_encode` is its `h3zero_settings_encode` into a number of
-- bytes, with `none` for NULL.
pub mod Laws
mod Runs
use m_quic.Prelude.{ℕ, ltb, if◌then◌else◌, Bool, true, false, ℤ, pos, is_ok}
use m_quic.Prelude.{List, [], ◌∷◌, Option, none, some}
use m_quic.Quic.{Quic}

-- `h3zero_settings_t`, as far as it is set here; the other fields are 0.
pub record Settings : Type 0 where
  pub enable_connect_protocol : Bool
  pub h3_datagram : Bool
  pub webtransport_max_sessions : ℕ

abbrev pub stream_type_control : ℕ
stream_type_control = 0

abbrev pub stream_type_qpack_encoder : ℕ
stream_type_qpack_encoder = 2

abbrev pub stream_type_qpack_decoder : ℕ
stream_type_qpack_decoder = 3

abbrev pub internal_error : ℤ
internal_error = pos 0x0102

-- WebTransport is offered only with datagrams.
unfoldable pub settings_for : ℕ → Settings
settings_for max_datagram_frame_size =
    let on = ltb 0 max_datagram_frame_size in
    record {
      enable_connect_protocol = true;
      h3_datagram = on;
      webtransport_max_sessions = if on then 1 else 0;
    }

module _ {W : Type 0} (q : Quic W) (settings_encode : ℕ → Settings → Option (List ℕ)) where
  -- The bytes go onto a stream, which gets a priority if they were accepted.
  unfoldable pub open_on : ℕ → List ℕ → ℕ → W → ℤ × W
  open_on sid bytes priority w =
      let (ret, w1) = q.add_to_stream sid bytes false w in
      if is_ok ret then q.set_stream_priority sid priority w1 else (ret, w1)

  -- The next stream of the connection, if all is well so far.
  unfoldable pub open_next : List ℕ → ℕ → ℤ × W → ℤ × W
  open_next bytes priority (ret, w) =
      if is_ok ret then open_on (q.next_local_stream_id true w) bytes priority w else (ret, w)

  unfoldable pub h3zero_protocol_init : ℕ → W → ℤ × W
  h3zero_protocol_init max_datagram_frame_size w =
      let control : ℤ × W = elim (settings_encode 255 (settings_for max_datagram_frame_size)) [
        | none ↦ (internal_error, w)
        | some settings ↦
            open_on (q.next_local_stream_id true w) (stream_type_control ∷ settings) 0 w
      ] in
      open_next (stream_type_qpack_decoder ∷ []) 1
        (open_next (stream_type_qpack_encoder ∷ []) 1 control)
