-- ===== src/Alpn/Runs.antt =====
-- The choices at concrete inputs.
use m_quic.Prelude.{
  ℕ, ◌+◌, ◌<◌, ◌≡◌, false, ◌⊎◌, pos, minus_one, List, [], ◌∷◌, take, All, get_or, some,
}
use m_quic.Alpn.{h3, is_h3, my_alpn_select_fn, alpn_select, PathItem, h3zero_server_parse_path}
use m_quic.Alpn.Laws.{alpn_select_first, parse_path_first}

abbrev offers : List (List ℕ)
offers = (104 ∷ 50 ∷ []) ∷ h3 ∷ []

alpn_select_first_example :
    (k : ℕ) × (my_alpn_select_fn offers 0 ≡ k)
    × (alpn_select offers 0 ≡ k)
    × (All (λ x. is_h3 x ≡ false) (take k offers))
    × (((k < 2) × (get_or offers k [] ≡ h3)) ⊎ (k ≡ 2))
alpn_select_first_example = alpn_select_first offers

abbrev camera : PathItem ℕ
camera = record { path = 47 ∷ 99 ∷ []; path_callback = λ w. (pos 0, w + 1) }

parse_path_first_example :
    (h3zero_server_parse_path {W = ℕ} (some (camera ∷ [])) (some (47 ∷ 99 ∷ 63 ∷ [])) 5
      ≡ (pos 0, 6))
    × (h3zero_server_parse_path {W = ℕ} (some []) (some (47 ∷ 99 ∷ 63 ∷ [])) 5 ≡ (minus_one, 5))
parse_path_first_example = parse_path_first [] [] camera (63 ∷ []) 5 tt
