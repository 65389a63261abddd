-- ===== src/Client/Options/Laws.antt =====
-- What the command line guarantees to the rest of the client.
use m_quic.Prelude.{ℕ, ◌≤◌, ◌<◌, ◌≡◌, refl, ◌∙◌, sym, ap, arith, false, ℤ, pos, negsuc}
use m_quic.Prelude.{List, [], ◌∷◌, some, Option-cases, inl, inr}
use m_quic.Client.Options.{
  CliOpt, opt_host, opt_addr, opt_port, opt_path, opt_alpn, opt_sni, opt_no_verify, opt_out,
  opt_max_frames, opt_unknown,
}
use m_quic.Client.Options.{
  CliOpts, default_opts, is_bad_port, take_opt, take_opts, with_host, parse_cli,
}

take_opt-port :
    (x : CliOpt) (o o' : CliOpts)
    → is_bad_port o.port ≡ false
    → take_opt x o ≡ some o'
    → is_bad_port o'.port ≡ false
unfolding take_opt
take_opt-port (opt_host s) o o' h e = ground arith
take_opt-port (opt_addr s) o o' h e = ground arith
take_opt-port (opt_port v) o o' h e = ground arith
take_opt-port (opt_path s) o o' h e = ground arith
take_opt-port (opt_alpn s) o o' h e = ground arith
take_opt-port (opt_sni s) o o' h e = ground arith
take_opt-port opt_no_verify o o' h e = ground arith
take_opt-port (opt_out s) o o' h e = ground arith
take_opt-port (opt_max_frames v) o o' h e = ground arith
take_opt-port opt_unknown o o' h e = cc

take_opts-port :
    (xs : List CliOpt) (o o' : CliOpts)
    → is_bad_port o.port ≡ false
    → take_opts xs o ≡ some o'
    → is_bad_port o'.port ≡ false
unfolding take_opts
take_opts-port [] o o' h e = ground (arith, h, e)
take_opts-port (x ∷ xs) o o' h e = elim (Option-cases (take_opt x o)) [
  | inl bad ↦ absurd (ground (arith, bad, e))
  | inr (o1, e1) ↦ take_opts-port xs o1 o' (take_opt-port x o o1 h e1) (ground (arith, e1, e))
]

with_host-some :
    (o o' : CliOpts) → with_host o ≡ some o' → (h : List ℕ) × (o'.host ≡ some h) × (o ≡ o')
with_host-some o o' e = elim (Option-cases o.host) [
  | inl bad ↦ absurd (ground (arith, bad, e))
  | inr (h, eh) ↦ (h, ground (arith, eh, e), ground (arith, eh, e))
]

good_port : (v : ℤ) → is_bad_port v ≡ false → (n : ℕ) × (v ≡ pos n) × (0 < n) × (n ≤ 65535)
good_port (pos n) h = (n, refl, ground arith, ground arith)
good_port (negsuc n) h = cc

-- A command line that is accepted names a host, and its port is between 1 and 65535, whatever the
-- options are and in whatever order they come.
pub parse_cli_valid :
    (xs : List CliOpt) (o : CliOpts)
    → parse_cli xs ≡ some o
    → ((h : List ℕ) × (o.host ≡ some h)) × ((n : ℕ) × (o.port ≡ pos n) × (0 < n) × (n ≤ 65535))
unfolding parse_cli
parse_cli_valid xs o e = elim (Option-cases (take_opts xs default_opts)) [
  | inl bad ↦ absurd (ground (arith, bad, e))
  | inr (o1, e1) ↦
      let (h, eh, same) = with_host-some o1 o (ground (arith, e1, e)) in
      let port = take_opts-port xs default_opts o1 refl e1 in
      ((h, eh), good_port o.port (ap (λ (x : CliOpts). is_bad_port x.port) (sym same) ∙ port))
]
