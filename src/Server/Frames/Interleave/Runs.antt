-- ===== src/Server/Frames/Interleave/Runs.antt =====
-- The theorems on the double buffer at concrete inputs.
use m_quic.Prelude.{◌≡◌, refl, arith, true, false, pos, [], ◌∷◌, ◌++◌}
use m_quic.Server.Frames.{FrameBuffers, pop_ready_frame, backlog_full, store_frame}
use m_quic.Server.Frames.Laws.{IsValid}
use m_quic.Server.Frames.Interleave.{Threads, checking, looked, idle, sending, Reach, here}
use m_quic.Server.Frames.Interleave.{next, look, IsTorn, both_start}
use m_quic.Server.Frames.{fill_buffer, write_front}
use m_quic.Server.Frames.Interleave.{choosing, writing, filled}
use m_quic.Server.Frames.Interleave.{go_on, choose, fill, store, pop, finish}
use m_quic.Server.Frames.Interleave.Order.{
  frames_in_order, sent_frames, stored_frames, sent, held, on_the_way,
}
use m_quic.Server.Frames.Interleave.Safety.{no_tearing, tearing_after_discard}

-- `run_server`'s start, with buffers of four bytes.
abbrev at_start : FrameBuffers
at_start = record {
  frame_buffer = record { at_zero = 0 ∷ 0 ∷ 0 ∷ 0 ∷ []; at_one = 0 ∷ 0 ∷ 0 ∷ 0 ∷ [] };
  frame_buffer_size = 4;
  ready_size = record { at_zero = 0; at_one = 0 };
  has_frame = record { at_zero = false; at_one = false };
  active_idx = 0;
  ready_idx = 1;
}

at_start-IsValid : IsValid at_start
at_start-IsValid = omega arith

abbrev looked_first : Threads
looked_first = record { frames = at_start; camera = looked 0 false; network = idle }

looks : Reach false (both_start at_start) looked_first
unfolding backlog_full
looks = next here (look 0 refl refl)

no_tearing_example : ¬ IsTorn looked_first
no_tearing_example = no_tearing at_start at_start-IsValid looks

-- A frame waits in buffer 1 while buffer 0 is being sent.
abbrev waiting : FrameBuffers
waiting = record at_start {
  ready_size = record { at_zero = 0; at_one = 3 };
  has_frame = record { at_zero = false; at_one = true };
}

tearing_after_discard_example :
    (s : Threads) × Reach true
      (record { frames = waiting; camera = checking 1000; network = sending 0 3 })
      s
    × IsTorn s
unfolding backlog_full
tearing_after_discard_example = tearing_after_discard waiting 1000 201001 3 refl refl

-- A frame of three bytes that is captured, stored, taken and sent.
abbrev chosen : Threads
chosen = record looked_first { camera = writing 0 }

abbrev with_jpeg : FrameBuffers
with_jpeg = fill_buffer 0 (8 ∷ 9 ∷ 7 ∷ []) at_start

abbrev stored : FrameBuffers
stored = store_frame 0 (pos 3) with_jpeg

abbrev popped : FrameBuffers
popped = (pop_ready_frame stored).1

abbrev in_sending : Threads
in_sending = record { frames = popped; camera = checking 0; network = sending 0 3 }

abbrev all_sent : Threads
all_sent = record in_sending { network = idle }

chooses : Reach false (both_start at_start) chosen
chooses =
    next {t = record looked_first { camera = choosing }} (next looks (go_on 0 refl refl))
      (choose refl refl)

sends : Reach false (both_start at_start) all_sent
unfolding fill_buffer store_frame pop_ready_frame
sends =
    next {t = in_sending}
      (next {t = record in_sending { frames = stored; network = idle }}
        (next {t = record chosen { frames = with_jpeg; camera = filled 0 (pos 3) }}
          (next chooses (fill 0 (8 ∷ 9 ∷ 7 ∷ []) (pos 3) refl refl)) (store 0 (pos 3) refl refl))
        (pop 0 3 popped refl refl refl))
      (finish 0 3 refl refl)

one_frame : sent_frames sends ≡ (8 ∷ 9 ∷ 7 ∷ []) ∷ []
unfolding sent_frames sent sends chooses looks on_the_way fill_buffer write_front store_frame
    pop_ready_frame
one_frame = refl

frames_in_order_example : sent_frames sends ++ held all_sent ≡ stored_frames sends
unfolding backlog_full
frames_in_order_example = frames_in_order at_start at_start-IsValid refl sends
