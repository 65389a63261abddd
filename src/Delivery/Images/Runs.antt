-- ===== src/Delivery/Images/Runs.antt =====
-- Two small images on a new stream of session 4.
use m_quic.Prelude.{ℕ, ◌≡◌, refl, arith, true, pos, List, [], ◌∷◌, ◌++◌, some}
use m_quic.Server.Bindings.{wt_header}
use m_quic.Client.Stream.{Host, App, wt_handle_stream_data}
use m_quic.Delivery.Images.{server_frames, IsImage, images_cut}

abbrev generous : Host (Unit {0})
generous = record { alloc = λ n d. (true, d); fopen = λ n d. (true, d) }

abbrev app : App (Unit {0})
app = record {
  max_frames = 0;
  saved = 0;
  session_ctrl_id = 4;
  streams = [];
  running = true;
  files = [];
  disk = tt;
}

abbrev first : List ℕ
first = 0xFF ∷ 0xD8 ∷ 1 ∷ 2 ∷ 3 ∷ 4 ∷ 5 ∷ 6 ∷ 0xFF ∷ 0xD9 ∷ []

abbrev second : List ℕ
second = 0xFF ∷ 0xD8 ∷ 1 ∷ 2 ∷ 3 ∷ 4 ∷ 5 ∷ 6 ∷ 7 ∷ 0xFF ∷ 0xD9 ∷ []

first-IsImage : IsImage first
first-IsImage = (_, refl, (omega arith, omega arith))

second-IsImage : IsImage second
second-IsImage = (_, refl, (omega arith, omega arith))

images_cut_example :
    (app' : App (Unit {0})) × (wt_handle_stream_data generous 7
        (wt_header 4 ++ server_frames (first ∷ second ∷ []))
        app
      ≡ some (pos 0, app'))
    × (app'.files ≡ (0, 0xFF ∷ 0xD9 ∷ []) ∷ (1, 7 ∷ 0xFF ∷ 0xD9 ∷ []) ∷ [])
images_cut_example =
    images_cut generous 7 4 (first ∷ second ∷ []) app
      (record { memory = λ n d. refl; opens = λ n d. refl }) (first-IsImage, (second-IsImage, tt))
      (omega arith) refl refl refl
