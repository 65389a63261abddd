-- ===== src/Client/Jpeg/Runs.antt =====
-- The theorems on the search for images at a concrete buffer.
use m_quic.Prelude.{ℕ, ◌≡◌, refl, List, [], ◌∷◌, ◌++◌}
use m_quic.Client.Jpeg.{find_mark, extract_loop, extract_jpegs, keep_tail}
use m_quic.Client.Jpeg.Chunks.{search_chunks, extract_jpegs-chunks}
use m_quic.Client.Jpeg.Laws.{IsJpeg, extract_jpegs-images}

abbrev image : List ℕ
image = 0xFF ∷ 0xD8 ∷ 1 ∷ 2 ∷ 0xFF ∷ 0xD9 ∷ []

-- Bytes before an image are skipped, and a start without an end is kept.
skips_and_keeps :
    extract_jpegs (9 ∷ (image ++ (0xFF ∷ 0xD8 ∷ 5 ∷ []))) ≡ (image ∷ [], 0xFF ∷ 0xD8 ∷ 5 ∷ [])
unfolding extract_jpegs extract_loop find_mark keep_tail
skips_and_keeps = refl

image-IsJpeg : IsJpeg image
unfolding find_mark
image-IsJpeg = record { body = 1 ∷ 2 ∷ 0xFF ∷ 0xD9 ∷ []; starts = refl; ends = refl }

extract_jpegs-images_example :
    extract_jpegs ((image ++ (image ++ [])) ++ (7 ∷ [])) ≡ (image ∷ image ∷ [], 7 ∷ [])
unfolding extract_jpegs extract_loop find_mark keep_tail
extract_jpegs-images_example =
    extract_jpegs-images (image ∷ image ∷ []) (7 ∷ []) (image-IsJpeg, (image-IsJpeg, tt))

-- Both marks are cut.
abbrev chunks : List (List ℕ)
chunks = (9 ∷ 0xFF ∷ []) ∷ (0xD8 ∷ 1 ∷ 2 ∷ 0xFF ∷ []) ∷ (0xD9 ∷ 0xFF ∷ []) ∷ []

chunks_found : search_chunks [] chunks ≡ image ∷ []
unfolding search_chunks extract_jpegs extract_loop find_mark keep_tail
chunks_found = refl

extract_jpegs-chunks_example :
    search_chunks [] chunks ≡ (extract_jpegs (9 ∷ (image ++ (0xFF ∷ [])))).0
extract_jpegs-chunks_example = extract_jpegs-chunks chunks
