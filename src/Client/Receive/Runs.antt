-- ===== src/Client/Receive/Runs.antt =====
-- The theorems on the client's callback at a small concrete system.
use m_quic.Prelude.{inl, ◌≡◌, refl, arith, true, false, [], ◌∷◌, none, some}
use m_quic.Varint.{wt_varint_decode}
use m_quic.Varint.Encode.{varint}
use m_quic.Varint.RoundTrip.{wt_varint_decode-varint, wt_varint_decode-short}
use m_quic.Client.Stream.{Host}
use m_quic.Client.Receive.{
  Receiver, receive_loop, receive_round, copy_payload, begin_frame, end_frame,
}
use m_quic.Client.Receive.Laws.{Decodes, IsIdle}
use m_quic.Client.Receive.Laws.Saves.{Took, receive_all_saves}
use m_quic.Client.Receive.Laws.Chunks.{
  Cuts, ended, up_to, into, receive_all, NeedsAll, cut_length_lost,
}
use m_quic.Client.Receive.Laws.{receive_loop_spins}

-- The client's own decoder is one that reads RFC 9000.
decode-Decodes : Decodes wt_varint_decode
decode-Decodes v rest h = ground (arith, wt_varint_decode-varint v rest)

abbrev generous : Host (Unit {0})
generous = record { alloc = λ n d. (true, d); fopen = λ n d. (true, d) }

abbrev idle : Receiver (Unit {0})
idle = record {
  max_frames = 2;
  frame_count = 0;
  has_out_dir = true;
  has_buffer = true;
  buffer_size = 4;
  frame_size = 0;
  received = [];
  running = true;
  closed = false;
  files = [];
  disk = tt;
}

idle-IsIdle : IsIdle idle
idle-IsIdle = record { no_frame = refl; buffer = inl refl }

-- Two frames are saved, and the second one ends the session.
two_frames :
    receive_loop wt_varint_decode generous 3 (2 ∷ 8 ∷ 9 ∷ 1 ∷ 7 ∷ []) idle
    ≡ some (record idle {
      frame_count = 2;
      running = false;
      closed = true;
      files = (1, 8 ∷ 9 ∷ []) ∷ (2, 7 ∷ []) ∷ [];
    })
unfolding receive_loop receive_round copy_payload begin_frame end_frame wt_varint_decode
two_frames = refl

-- The two frames in three chunks.
three_chunks : Cuts [] ((8 ∷ 9 ∷ []) ∷ (7 ∷ []) ∷ []) ((2 ∷ 8 ∷ []) ∷ (9 ∷ 1 ∷ []) ∷ (7 ∷ []) ∷ [])
unfolding varint
three_chunks =
    into [] ((7 ∷ []) ∷ []) (8 ∷ []) (9 ∷ []) (omega arith) refl refl
      (into [] [] [] (7 ∷ []) (omega arith) refl refl (up_to [] [] refl refl ended))

receive_all_saves_example :
    (app' : Receiver (Unit {0})) × (receive_all wt_varint_decode decode-Decodes generous
        (λ n d. refl)
        4
        ((2 ∷ 8 ∷ []) ∷ (9 ∷ 1 ∷ []) ∷ (7 ∷ []) ∷ [])
        idle
      ≡ some app')
    × Took ((8 ∷ 9 ∷ []) ∷ (7 ∷ []) ∷ []) idle app'
receive_all_saves_example =
    receive_all_saves wt_varint_decode decode-Decodes generous (λ n d. refl) (λ n d. refl) 4 idle
      three_chunks idle-IsIdle ((omega arith, omega arith), ((omega arith, omega arith), tt))
      (omega arith)

receive_loop_spins_example :
    receive_loop wt_varint_decode generous 1000
      (5 ∷ [])
      (record idle { has_buffer = false; frame_size = 3 })
    ≡ none
receive_loop_spins_example =
    receive_loop_spins wt_varint_decode generous 1000 (5 ∷ [])
      (record idle { has_buffer = false; frame_size = 3 }) (omega arith) (omega arith) refl

decode-NeedsAll : NeedsAll wt_varint_decode
decode-NeedsAll v k small some_bytes short = wt_varint_decode-short v k some_bytes short

-- The length of a frame of 300 bytes is cut behind its first byte.
cut_length_lost_example :
    receive_all wt_varint_decode decode-Decodes generous
      (λ n d. refl)
      4
      ((0x41 ∷ []) ∷ (0x2c ∷ 9 ∷ []) ∷ [])
      idle
    ≡ receive_all wt_varint_decode decode-Decodes generous
        (λ n d. refl)
        4
        ((0x2c ∷ 9 ∷ []) ∷ [])
        idle
unfolding varint
cut_length_lost_example =
    cut_length_lost wt_varint_decode decode-Decodes decode-NeedsAll generous (λ n d. refl) 3 300 1
      (9 ∷ []) [] idle idle-IsIdle (omega arith) (omega arith) (omega arith)
