-- ===== src/Quic.antt =====
-- What the program calls in picoquic and in the operating system, over a world `W` that these calls
-- read and change. None of it is code of this repository, so every model takes it as a parameter.
-- A path pointer is handed on as the record that was read from `cnx->path[i]`, whose
-- `unique_path_id` names the path, and NULL as `none`.
pub mod Laws
pub mod Bench
use m_quic.Prelude.{ℕ, Bool, ℤ, List, Option}
use m_quic.PathAlgo.{QuicPath, Paths}

pub record Quic (W : Type 0) : Type 0 where
  -- `cnx->path`, of length `cnx->nb_paths`
  pub paths : W → Paths
  -- `picoquic_get_cnx_state`, with the states as the numbers of their enumeration
  pub cnx_state : W → ℕ
  pub state_client_ready_start : ℕ
  pub state_disconnecting : ℕ
  pub state_disconnected : ℕ
  -- `picoquic_current_time`, in microseconds
  pub current_time : W → ℕ × W
  -- `gettimeofday`, as seconds and microseconds
  pub gettimeofday : W → ℕ × ℕ × W
  -- `usleep`
  pub usleep : ℕ → W → W
  -- `picoquic_is_sending_authorized_by_pacing(cnx, path, now, &next)`
  pub is_sending_authorized : Option QuicPath → ℕ → ℕ → W → Bool × ℕ × W
  -- `picoquic_update_pacing_after_send(path, len, now)`
  pub update_pacing_after_send : Option QuicPath → ℕ → ℕ → W → W
  -- `picoquic_add_to_stream(cnx, sid, bytes, len, fin)`
  pub add_to_stream : ℕ → List ℕ → Bool → W → ℤ × W
  -- `picoquic_get_next_local_stream_id(cnx, is_unidir)`
  pub next_local_stream_id : Bool → W → ℕ
  -- `picoquic_set_stream_path_affinity(cnx, sid, unique_path_id)`
  pub set_stream_path_affinity : ℕ → ℕ → W → W
  -- `picoquic_set_stream_priority(cnx, sid, priority)`
  pub set_stream_priority : ℕ → ℕ → W → ℤ × W
  -- `picoquic_enable_keep_alive` and `picoquic_set_callback`
  pub enable_keep_alive : ℕ → W → W
  pub set_callback : W → W
  -- `picoquic_close(cnx, 0)`
  pub close : W → W
