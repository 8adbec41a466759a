-- ===== src/Config/Certificates.antt =====
-- internal/config/config.go and cmd/broker/main.go: the issuer that a loaded configuration gives.
use ssh_access.Prelude.{arith, ℕ, ◌≤◌, ◌≡◌, some, [], ◌∷◌}
use ssh_access.Prelude.Int.{ℤ, ◌+ℤ◌, ◌-ℤ◌}
use ssh_access.Ca.Issuer.{
  Issuer, IssueParams, Certificate, Authority, SerialAllocator, with_clock_skew, default_issuer,
  new_issuer, issue, unix_seconds, second,
}
use ssh_access.Ca.Issuer
use ssh_access.Ca.Issuer.Lifetime.{issue_lifetime}
use ssh_access.Ca.Serial.{counter_allocator}
use ssh_access.Config.{Environ, Library, Config, accept, load}
use ssh_access.Config.Settings.{IsValid, load-IsValid}

module _ {Key : Type 0} where
  -- The issuer that run makes from the configuration.
  unfoldable pub broker_issuer : Config → Authority Key → Issuer.Result (Issuer Key ℕ)
  broker_issuer c a =
      new_issuer (some a) (some counter_allocator) c.cert_max_ttl
        (with_clock_skew c.cert_clock_skew ∷ [])

  abbrev pub issuer_of : Config → Authority Key → Issuer Key ℕ
  issuer_of c a = record (default_issuer a counter_allocator c.cert_max_ttl) {
    clock_skew = c.cert_clock_skew;
  }

  made :
      (lib : Library) (c : Config) (a : Authority Key)
      → IsValid lib c
      → broker_issuer c a ≡ Issuer.ok (issuer_of c a)
  unfolding broker_issuer new_issuer
  made lib c a v = ground (arith, v.max_ttl, v.clock_skew)

  -- From a configuration that Load returns the broker gets an issuer, for every signing authority, and what
  -- that issuer issues is valid from at most the configured skew before the time of issue to at most the
  -- configured maximum after it, that time included.
  pub load-issue :
      (lib : Library) (env : Environ) (c : Config) (a : Authority Key) (p : IssueParams Key)
      (time : ℤ) (st : ℕ) (cert : Certificate Key)
      → load lib env ≡ accept c
      → (issue (issuer_of c a) p time st).0 ≡ Issuer.ok cert
      → (broker_issuer c a ≡ Issuer.ok (issuer_of c a))
        × (unix_seconds (time -ℤ c.cert_clock_skew) ≤ cert.valid_after)
        × (cert.valid_after ≤ unix_seconds time)
        × (unix_seconds time ≤ cert.valid_before)
        × (cert.valid_before ≤ unix_seconds (time +ℤ c.cert_max_ttl))
  unfolding broker_issuer
  load-issue lib env c a p time st cert h issued =
      let made' = made lib c a (load-IsValid lib env c h) in
      let bounds =
        issue_lifetime (some a) (some counter_allocator) c.cert_max_ttl
          (with_clock_skew c.cert_clock_skew ∷ []) (issuer_of c a) p time st cert made' issued in
      (made', bounds.3, bounds.0, bounds.1, bounds.2)
