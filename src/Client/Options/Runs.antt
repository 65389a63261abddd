-- ===== src/Client/Options/Runs.antt =====
-- The command line at concrete options.
use m_quic.Prelude.{ℕ, ◌-◌, ◌^◌, ◌<◌, ◌≤◌, ◌≡◌, refl, pos, negsuc, List, [], ◌∷◌, none, some}
use m_quic.Client.Options.{
  opt_host, opt_port, opt_max_frames, CliOpts, default_opts, to_int, take_opt, take_opts, parse_cli,
}
use m_quic.Client.Options.Laws.{parse_cli_valid}

abbrev local : CliOpts
local = record default_opts { host = some (97 ∷ []); port = pos 443 }

accepts : parse_cli (opt_host (97 ∷ []) ∷ opt_port (pos 443) ∷ []) ≡ some local
unfolding parse_cli take_opts take_opt
accepts = refl

needs_host : parse_cli (opt_port (pos 443) ∷ []) ≡ none
unfolding parse_cli take_opts take_opt
needs_host = refl

-- A number of frames from 2^31 on comes out negative.
too_many_frames :
    take_opt (opt_max_frames (pos (2 ^ 31))) local
    ≡ some (record local { max_frames = negsuc (2 ^ 31 - 1) })
unfolding take_opt to_int
too_many_frames = refl

parse_cli_valid_example :
    ((h : List ℕ) × (local.host ≡ some h))
    × ((n : ℕ) × (local.port ≡ pos n) × (0 < n) × (n ≤ 65535))
parse_cli_valid_example =
    parse_cli_valid (opt_host (97 ∷ []) ∷ opt_port (pos 443) ∷ []) local accepts
