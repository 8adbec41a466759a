-- ===== src/Samples/Configured.antt =====
-- Runs of the configuration of internal/config.
use ssh_access.Prelude.{◌≤◌, ◌≡◌, refl, ◌==◌, none, some, [], ◌∷◌, contains, if◌then◌else◌, sort}
use ssh_access.Prelude.Int.{pos, ◌+ℤ◌, ◌-ℤ◌}
use ssh_access.Prelude.Bytes.{Bytes}
use ssh_access.Ca.Issuer
use ssh_access.Ca.Issuer.{issue, unix_seconds, dedupe_non_empty}
use ssh_access.Samples.Certificates.{signing, request, noon, issued}
use ssh_access.Config.{
  Environ, Library, Config, accept, reject, short_secret_key, load, assembled, check_settings,
  secret_key, duration, login_timeout, getenv, check_ca_backend,
}
use ssh_access.Config.Settings.{IsValid, load-IsValid}
use ssh_access.Config.Certificates.{broker_issuer, issuer_of, load-issue}

abbrev eight : Bytes
eight = 1 ∷ 2 ∷ 3 ∷ 4 ∷ 5 ∷ 6 ∷ 7 ∷ 8 ∷ []

abbrev key : Bytes
key =
    1 ∷ 2 ∷ 3 ∷ 4 ∷ 5 ∷ 6 ∷ 7 ∷ 8 ∷ 1 ∷ 2 ∷ 3 ∷ 4 ∷ 5 ∷ 6 ∷ 7 ∷ 8 ∷ 1 ∷ 2 ∷ 3 ∷ 4 ∷ 5 ∷ 6 ∷ 7 ∷ 8
    ∷ eight

abbrev library : Library
library = record {
  to_lower = λ s. s;
  parse_duration = λ s.
      if s == "5m"
      then some (pos 300000000000)
      else if s == "1m"
      then some (pos 60000000000)
      else if s == "10s"
      then some (pos 10000000000)
      else none;
  decode_base64 = λ s. if s == "key" then some key else some eight;
  atoi = λ s. none;
}

abbrev environ : Environ
environ name =
    if name == "SSHBROKER_DATABASE_URL"
    then some "postgres://localhost/broker"
    else if name == "SSHBROKER_SECRET_STORE_KEY"
    then some "key"
    else none

abbrev config : Config
config =
    assembled library environ key (pos 10000000000) (pos 10000000000) (pos 300000000000)
      (pos 60000000000)

loads : load library environ ≡ accept config
unfolding load check_settings secret_key duration login_timeout getenv check_ca_backend contains
loads = refl

abbrev short_environ : Environ
short_environ name = if name == "SSHBROKER_SECRET_STORE_KEY" then some "short" else environ name

short_key : load library short_environ ≡ reject short_secret_key
unfolding load check_settings secret_key duration login_timeout getenv check_ca_backend contains
short_key = refl

load-IsValid_example : IsValid library config
load-IsValid_example = load-IsValid library environ config loads

issues : (issue (issuer_of config signing) request noon 7).0 ≡ Issuer.ok issued
unfolding issue sort dedupe_non_empty contains ◌-ℤ◌ ◌+ℤ◌
issues = refl

load-issue_example :
    (broker_issuer config signing ≡ Issuer.ok (issuer_of config signing))
    × (unix_seconds (noon -ℤ config.cert_clock_skew) ≤ issued.valid_after)
    × (issued.valid_after ≤ unix_seconds noon)
    × (unix_seconds noon ≤ issued.valid_before)
    × (issued.valid_before ≤ unix_seconds (noon +ℤ config.cert_max_ttl))
load-issue_example = load-issue library environ config signing request noon 7 issued loads issues
