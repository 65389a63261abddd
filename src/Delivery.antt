-- ===== src/Delivery.antt =====
-- From the server's buffer to the client's file: what `network_thread_func` of src/quic_server.c
-- writes for a frame, read by `client_cb` of client/client_main.c.
pub mod Images
mod Runs
use m_quic.Prelude.{ℕ, suc, ◌≤◌, ◌<◌, ◌^◌, ◌≡◌, refl, ◌∙◌, sym, ap, arith, min}
use m_quic.Prelude.{
  Bool, true, false, List, [], ◌∷◌, ◌++◌, length, take, Option, none, some, inl, inr, length-take,
  append-nil,
}
use m_quic.Varint.{quic_varint_encode}
use m_quic.Varint.Encode.{varint, quic_varint_encode-varint}
use m_quic.PathAlgo.{QuicPath}
use m_quic.Quic.{Quic}
use m_quic.Quic.Laws.{Write, Queues, Permits}
use m_quic.Server.{Server}
use m_quic.Server.Frames.{get_two}
use m_quic.Server.Network.{send_frame}
use m_quic.Server.Network.Payload.{Quiet, Chunks, bytes_of, send_frame_sends}
use m_quic.Client.Stream.{Host}
use m_quic.Client.Receive.{Receiver}
use m_quic.Client.Receive.Laws.{Decodes, IsIdle, wire, wires}
use m_quic.Client.Receive.Laws.Chunks.{Cuts, receive_all}
use m_quic.Client.Receive.Laws.Saves.{Took, receive_all_saves}

module _ {W D : Type 0} (q : Quic W) (written : W → List Write) (queues : Queues q written)
    (permits : Permits q) (n : ℕ) (others : Server W → Server W) (fb : ℕ) (Safe : Server W → Type 0)
    (quiet : Quiet written fb Safe others) (decode : List ℕ → Option (ℕ × ℕ))
    (decodes : Decodes decode) (host : Host D)
    (grants : (size : ℕ) (d : D) → (host.alloc size d).0 ≡ true)
    (opens : (frame : ℕ) (d : D) → (host.fopen frame d).0 ≡ true) where
  frame_wire :
      (frame_bytes payload left : List ℕ) (fb_sz : ℕ)
      → length frame_bytes ≡ fb_sz
      → fb_sz < 2 ^ 62
      → frame_bytes ≡ payload ++ left
      → left ≡ []
      → quic_varint_encode fb_sz ++ payload ≡ wires (frame_bytes ∷ [])
  frame_wire frame_bytes payload left fb_sz size small e nothing =
      let same : payload ≡ frame_bytes =
        sym (append-nil payload) ∙ sym (e ∙ ap (λ (l : List ℕ). payload ++ l) nothing) in
      rw (quic_varint_encode-varint fb_sz small, same, ← size)
        (sym (append-nil (varint (length frame_bytes) ++ frame_bytes)))

  -- A frame that the server sent whole arrives. Where pacing permits each write and the other threads
  -- and the callbacks leave the buffer that is sent as it is, if `send_frame` answers for a frame of
  -- between one and 2^62 - 1 bytes that the buffer holds, and `is_sending` is still set, then what it
  -- queued is the frame on the wire. A client that is between two frames, has memory and can open its
  -- files, to which this comes in chunks that are cut anywhere but in the frame's length, counts one
  -- frame more and, if a directory is named, has saved one file more, with exactly these bytes.
  pub frame_arrives :
      (send_idx : ℕ) (path : Option QuicPath) (sid fb_sz : ℕ) (s s' : Server W) (app : Receiver D)
      (cs : List (List ℕ))
      → Safe s
      → 0 < fb_sz
      → fb_sz < 2 ^ 62
      → fb_sz ≤ length (get_two s.ctx.frames.frame_buffer fb)
      → IsIdle app
      → send_frame q (suc n) others send_idx path sid fb fb_sz s ≡ some (true, s')
      → s'.ctx.is_sending ≡ true
      → Cuts [] (take fb_sz (get_two s.ctx.frames.frame_buffer fb) ∷ []) cs
      → (ws : List Write) × (written s'.world ≡ written s.world ++ ws)
        × (bytes_of ws ≡ wires (take fb_sz (get_two s.ctx.frames.frame_buffer fb) ∷ []))
        × (app' : Receiver D) × (receive_all decode decodes host grants 3 cs app ≡ some app')
        × Took (take fb_sz (get_two s.ctx.frames.frame_buffer fb) ∷ []) app app'
  frame_arrives send_idx path sid fb_sz s s' app cs safe some_bytes small fits idle sent on cuts =
      let buf = get_two s.ctx.frames.frame_buffer fb in
      let size : length (take fb_sz buf) ≡ fb_sz = omega (arith, length-take fb_sz buf) in
      let (s'', ws, left, answer) =
        send_frame_sends q written queues permits n others fb Safe quiet send_idx path sid fb_sz s
          safe in
      let (app', received, took) =
        receive_all_saves decode decodes host grants opens 3 app cuts idle
          ((omega (arith, size, some_bytes), omega (arith, size, small)), tt) (omega arith) in
      elim answer [
        | inl (refused, _, _) ↦ absurd (ground (arith, refused, sent))
        | inr (e, queued, bytes, _, inr off) ↦ absurd (ground (arith, e, sent, off, on))
        | inr (e, queued, bytes, _, inl (_, whole)) ↦ (
          record { sid = sid; bytes = quic_varint_encode fb_sz; fin = false } ∷ ws,
          rw (same s'' s' e sent) at queued,
          frame_wire (take fb_sz buf) (bytes_of ws) left fb_sz size small bytes whole,
          app',
          received,
          took,
        )
      ]
    where
      same :
          (s1 s2 : Server W)
          → send_frame q (suc n) others send_idx path sid fb fb_sz s ≡ some (true, s1)
          → send_frame q (suc n) others send_idx path sid fb fb_sz s ≡ some (true, s2)
          → s1 ≡ s2
      same s1 s2 e1 e2 = ground (arith, e1, e2)
