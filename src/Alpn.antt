-- ===== src/Alpn.antt =====
-- The choice of the protocol in the TLS handshake: `my_alpn_select_fn` of src/quic_server.c and
-- `alpn_select` of client/wt_client.c; and the choice of the handler for a request's path:
-- `h3zero_server_parse_path` of src/h3zero_server_min.c.
pub mod Laws
mod Runs
use m_quic.Prelude.{
  ℕ, zero, suc, ◌+◌, ◌==◌, leb, if◌then◌else◌, Bool, true, false, not, ◌&&◌, List, [], ◌∷◌, length,
  take, bytes_eq,
}
use m_quic.Prelude.{ℤ, minus_one, Option, none, some}

-- `"h3"`
abbrev pub h3 : List ℕ
h3 = 104 ∷ 51 ∷ []

-- `list[i].len == strlen(H3) && memcmp(list[i].base, H3, list[i].len) == 0`
abbrev pub is_h3 : List ℕ → Bool
is_h3 name = length name == 2 && bytes_eq name h3

-- The loops from index `i` on; at the end they answer the number of protocols.
unfoldable pub my_alpn_select_fn : List (List ℕ) → ℕ → ℕ
my_alpn_select_fn [] i = i
my_alpn_select_fn (x ∷ xs) i =
    let later = my_alpn_select_fn xs (i + 1) in if is_h3 x then i else later

unfoldable pub alpn_select : List (List ℕ) → ℕ → ℕ
alpn_select [] i = i
alpn_select (x ∷ xs) i = let later = alpn_select xs (i + 1) in if is_h3 x then i else later

-- One path that the server knows, with its handler over a world `W`.
pub record PathItem (W : Type 0) : Type 0 where
  pub path : List ℕ
  pub path_callback : W → ℤ × W

-- `path_length >= item->path_length && memcmp(path, item->path, item->path_length) == 0`
abbrev pub is_prefix : List ℕ → List ℕ → Bool
is_prefix p path = leb (length p) (length path) && bytes_eq (take (length p) path) p

unfoldable pub find_handler : {W : Type 0} → List (PathItem W) → List ℕ → W → ℤ × W
find_handler [] path w = (minus_one, w)
find_handler (item ∷ items) path w =
    let later = find_handler items path w in
    if is_prefix item.path path then item.path_callback w else later

-- `none` is a context, a table or a path that is NULL.
unfoldable pub h3zero_server_parse_path :
    {W : Type 0} → Option (List (PathItem W)) → Option (List ℕ) → W → ℤ × W
h3zero_server_parse_path none path w = (minus_one, w)
h3zero_server_parse_path (some table) none w = (minus_one, w)
h3zero_server_parse_path (some table) (some path) w = find_handler table path w
