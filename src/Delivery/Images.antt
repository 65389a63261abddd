-- ===== src/Delivery/Images.antt =====
-- A WebTransport stream as `network_thread_func` of src/quic_server.c fills it, read by
-- `wt_handle_stream_data` of client/wt_client.c.
mod Runs
use m_quic.Prelude.{ℕ, ◌+◌, ◌<◌, ◌^◌, ◌≡◌, refl, ◌∙◌, ap, arith, pos}
use m_quic.Prelude.{List, [], ◌∷◌, ◌++◌, length, drop, All, Option, none, some}
use m_quic.Varint.{quic_varint_encode, wt_varint_decode}
use m_quic.Varint.Encode.{varint, quic_varint_encode-varint}
use m_quic.Server.Bindings.{wt_header}
use m_quic.Client.Stream.{Host, App, find_stream, wt_handle_stream_data}
use m_quic.Client.Stream.Frames.{IsFrame, stamp_size, bodies, wires, Grants}
use m_quic.Client.Stream.Frames.Header.{header, new_stream_saves}

-- What the server writes on the stream: each frame's length and the frame.
abbrev pub server_frames : List (List ℕ) → List ℕ
server_frames [] = []
server_frames (g ∷ gs) = quic_varint_encode (length g) ++ (g ++ server_frames gs)

-- A frame of the camera: a JPEG image of more than eight bytes and at most 32 MB.
abbrev pub IsImage : List ℕ → Type 0
IsImage g = (rest : List ℕ) × (g ≡ 0xFF ∷ 0xD8 ∷ rest) × IsFrame g

-- The frames without their first eight bytes, under the numbers from `k` on.
abbrev pub cut_frames : ℕ → List (List ℕ) → List (ℕ × List ℕ)
cut_frames k [] = []
cut_frames k (g ∷ gs) = (k, drop 8 g) ∷ cut_frames (k + 1) gs

-- The start mark of an image reads as a number of eight bytes.
mark_stamp : (rest : List ℕ) → 6 < length rest → stamp_size (0xFF ∷ 0xD8 ∷ rest) ≡ 8
unfolding wt_varint_decode
mark_stamp rest h = ground arith

image-stamp_size : (g : List ℕ) → IsImage g → stamp_size g ≡ 8
image-stamp_size g (rest, starts, frame) =
    let size : length g ≡ length rest + 2 = ap length starts ∙ omega arith in
    ap stamp_size starts ∙ mark_stamp rest (omega (arith, size, frame))

images-bodies : (k : ℕ) (gs : List (List ℕ)) → All IsImage gs → bodies k gs ≡ cut_frames k gs
images-bodies k [] h = refl
images-bodies k (g ∷ gs) h = rw (image-stamp_size g h.0, images-bodies (k + 1) gs h.1) refl

images-frames : (gs : List (List ℕ)) → All IsImage gs → All IsFrame gs
images-frames [] h = tt
images-frames (g ∷ gs) ((rest, starts, frame), hs) = (frame, images-frames gs hs)

server_frames-wires : (gs : List (List ℕ)) → All IsFrame gs → server_frames gs ≡ wires gs
unfolding wires
server_frames-wires [] h = refl
server_frames-wires (g ∷ gs) (frame, hs) =
    rw (quic_varint_encode-varint (length g) (omega (arith, frame)), server_frames-wires gs hs) refl

wt_header-header : (control : ℕ) → control < 2 ^ 62 → wt_header control ≡ header control
wt_header-header control small =
    rw (quic_varint_encode-varint 0x54 (omega arith), quic_varint_encode-varint control small) refl

module _ {D : Type 0} (host : Host D) where
  -- The images of a stream that the server opened for the client's session arrive without their
  -- first eight bytes: if the header and the images, each of more than eight bytes and at most 32
  -- MB behind its length, come together on a new stream, the system gives memory and opens the
  -- files, and no limit on the frames is set, then the client saves of each image what is behind
  -- its first eight bytes, in their order and under the next numbers, and answers 0.
  pub images_cut :
      (sid control : ℕ) (gs : List (List ℕ)) (app : App D)
      → Grants host
      → All IsImage gs
      → control < 2 ^ 62
      → app.session_ctrl_id ≡ control
      → find_stream app.streams sid ≡ none
      → app.max_frames ≡ 0
      → (app' : App D) × (wt_handle_stream_data host sid (wt_header control ++ server_frames gs) app
          ≡ some (pos 0, app'))
        × (app'.files ≡ app.files ++ cut_frames app.saved gs)
  images_cut sid control gs app ok images small mine new no_limit =
      let frames = images-frames gs images in
      let (app', e, saves) =
        new_stream_saves host sid control gs app ok frames small mine new no_limit in
      (
        app',
        rw (wt_header-header control small, server_frames-wires gs frames) e,
        saves.wrote
            ∙ ap (λ (l : List (ℕ × List ℕ)). app.files ++ l) (images-bodies app.saved gs images),
      )
