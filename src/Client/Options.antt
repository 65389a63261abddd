-- ===== src/Client/Options.antt =====
-- The client's command line and directories, client/client_main.c: `parse_cli` and `ensure_dir`,
-- and `ensure_dir` of client/wt_client.c. The options come as `getopt_long` reads them, numbers as
-- `strtol` reads them.
pub mod Laws
mod Runs
use m_quic.Prelude.{
  ℕ, zero, suc, ◌-◌, ◌+◌, ◌%◌, ◌^◌, ◌==◌, ltb, leb, if◌then◌else◌, Bool, true, false, ◌||◌, ℤ, pos,
  negsuc, minus_one,
}
use m_quic.Prelude.{List, [], ◌∷◌, Option, none, some}

-- One option of the command line.
pub data CliOpt : Type 0 where
  opt_host : List ℕ → CliOpt
  opt_addr : List ℕ → CliOpt
  opt_port : ℤ → CliOpt
  opt_path : List ℕ → CliOpt
  opt_alpn : List ℕ → CliOpt
  opt_sni : List ℕ → CliOpt
  opt_no_verify : CliOpt
  opt_out : List ℕ → CliOpt
  opt_max_frames : ℤ → CliOpt
  opt_unknown : CliOpt

-- `cli_opts_t`
pub record CliOpts : Type 0 where
  pub host : Option (List ℕ)
  pub addr : Option (List ℕ)
  pub port : ℤ
  pub path : List ℕ
  pub alpn : List ℕ
  pub sni : Option (List ℕ)
  pub no_verify : Bool
  pub out_dir : List ℕ
  pub max_frames : ℤ

-- Port 4433, path `/`, ALPN `h3`, directory `frames`.
abbrev pub default_opts : CliOpts
default_opts = record {
  host = none;
  addr = none;
  port = pos 4433;
  path = 47 ∷ [];
  alpn = 104 ∷ 51 ∷ [];
  sni = none;
  no_verify = true;
  out_dir = 102 ∷ 114 ∷ 97 ∷ 109 ∷ 101 ∷ 115 ∷ [];
  max_frames = pos 0;
}

-- `(int)v` for a `long`
unfoldable pub to_int : ℤ → ℤ
to_int (pos v) = let r = v % 2 ^ 32 in if ltb r (2 ^ 31) then pos r else negsuc (2 ^ 32 - r - 1)
to_int (negsuc v) = let r = v % 2 ^ 32 in if ltb r (2 ^ 31) then negsuc r else pos (2 ^ 32 - r - 1)

-- `v <= 0 || v > 65535`
abbrev pub is_bad_port : ℤ → Bool
is_bad_port (pos v) = v == 0 || ltb 65535 v
is_bad_port (negsuc v) = true

-- `v < 0`
abbrev pub is_negative : ℤ → Bool
is_negative (pos v) = false
is_negative (negsuc v) = true

-- One option; `none` for the answer -1.
unfoldable pub take_opt : CliOpt → CliOpts → Option CliOpts
take_opt (opt_host s) o = some (record o { host = some s })
take_opt (opt_addr s) o = some (record o { addr = some s })
take_opt (opt_port v) o = if is_bad_port v then none else some (record o { port = v })
take_opt (opt_path s) o = some (record o { path = s })
take_opt (opt_alpn s) o = some (record o { alpn = s })
take_opt (opt_sni s) o = some (record o { sni = some s })
take_opt opt_no_verify o = some (record o { no_verify = true })
take_opt (opt_out s) o = some (record o { out_dir = s })
take_opt (opt_max_frames v) o =
    if is_negative v then none else some (record o { max_frames = to_int v })
take_opt opt_unknown o = none

unfoldable pub take_opts : List CliOpt → CliOpts → Option CliOpts
take_opts [] o = some o
take_opts (x ∷ xs) o = elim (take_opt x o) [ none ↦ none | some o' ↦ take_opts xs o' ]

-- `--host` is required.
abbrev pub with_host : CliOpts → Option CliOpts
with_host o = elim o.host [ none ↦ none | some h ↦ some o ]

unfoldable pub parse_cli : List CliOpt → Option CliOpts
parse_cli xs = elim (take_opts xs default_opts) [ none ↦ none | some o ↦ with_host o ]

-- What `stat` says of a directory's name.
pub data Stat : Type 0 where
  missing : Stat
  directory : Stat
  other_file : Stat

-- `ensure_dir` of client_main.c. `named` is whether there is a name, `made` whether `mkdir` answered
-- 0, and `exists` whether it failed because the name exists.
unfoldable pub ensure_dir : Bool → Stat → Bool → Bool → ℤ
ensure_dir named directory made exists = pos 0
ensure_dir named other_file made exists = if named then minus_one else pos 0
ensure_dir named missing made exists =
    if named then (if made || exists then pos 0 else minus_one) else pos 0

-- `ensure_dir` of wt_client.c
unfoldable pub wt_ensure_dir : Bool → Bool → ℤ
wt_ensure_dir made exists = if made then pos 0 else if exists then pos 0 else minus_one
