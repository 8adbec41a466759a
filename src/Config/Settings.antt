-- ===== src/Config/Settings.antt =====
-- internal/config/config.go: what a loaded configuration satisfies.
use ssh_access.Prelude.{
  arith, String, Bool, true, ◌≡◌, ◌≢◌, ◌⊎◌, [], ◌∷◌, not, ◌==◌, length, contains, eq_iff, refl,
  subst, eqb,
}
use ssh_access.Prelude.Int.{pos, ◌≤ℤ◌, leb_ℤ, ltb_ℤ}
use ssh_access.Prelude.Bytes.{Bytes}
use ssh_access.Config.{
  Environ, ConfigError, no_secret_key, bad_secret_key, short_secret_key, max_ttl_not_positive,
  bad_clock_skew, clock_skew_negative, bad_shutdown_timeout, bad_revocation_interval, bad_max_ttl,
  assembled, getenv, or_empty, Library, Config, Loading, accept, reject, ◌>>=◌, ◌>>◌, ensure,
  or_fail, load, check_settings, secret_key, duration, check_ca_backend, login_timeout,
}

pub record IsValid (lib : Library) (c : Config) : Type 0 where
  pub environment : contains ("dev" ∷ "prod" ∷ []) c.environment ≡ true
  pub log_level :
      contains ("debug" ∷ "info" ∷ "warn" ∷ "error" ∷ []) (lib.to_lower c.log_level) ≡ true
  pub database : c.database_url ≢ ""
  pub ca_backend : (c.ca_backend ≡ "file") ⊎ ((c.ca_backend ≡ "kms") × (c.kms_key_id ≢ ""))
  pub auth_backend : contains ("file" ∷ "db" ∷ []) c.auth_backend ≡ true
  pub authz_backend : contains ("file" ∷ "db" ∷ []) c.authz_backend ≡ true
  pub secret_store_key : length c.secret_store_key ≡ 32
  pub max_ttl : pos 1 ≤ℤ c.cert_max_ttl
  pub clock_skew : pos 0 ≤ℤ c.cert_clock_skew
  pub browser_login_timeout : pos 1 ≤ℤ c.browser_login_timeout

-- What a step that was accepted gave, and that the rest accepts it.
accepted :
    {A B : Type 0} {b : B} (first : Loading A) (step : A → Loading B)
    → (first >>= step) ≡ accept b
    → (value : A) × ((first ≡ accept value) × (step value ≡ accept b))
accepted (reject fault) step h = cc
accepted (accept value) step h = (value, (refl, h))

ensured : (b : Bool) (fault : ConfigError) (u : Unit {0}) → ensure b fault ≡ accept u → b ≡ true
ensured b fault u h = ground arith

accept_injective : {A : Type 0} (a b : A) → accept a ≡ accept b → a ≡ b
accept_injective a b h = cc

check_ca_backend-eq-accept :
    (lib : Library) (env : Environ) (ca kms : String) (u : Unit {0})
    → check_ca_backend lib env ca kms ≡ accept u
    → (ca ≡ "file") ⊎ ((ca ≡ "kms") × (kms ≢ ""))
unfolding check_ca_backend
check_ca_backend-eq-accept lib env ca kms u h =
    ground (arith, eq_iff ca "file", eq_iff ca "kms", eq_iff kms "")

module _ (lib : Library) (env : Environ) where
  record Settled (environment log_level database_url : String) : Type 0 where
    environment_ok : contains ("dev" ∷ "prod" ∷ []) environment ≡ true
    log_level_ok :
        contains ("debug" ∷ "info" ∷ "warn" ∷ "error" ∷ []) (lib.to_lower log_level) ≡ true
    database_ok : database_url ≢ ""
    ca_ok :
        (getenv env "SSHBROKER_CA_BACKEND" "file" ≡ "file")
        ⊎ ((getenv env "SSHBROKER_CA_BACKEND" "file" ≡ "kms")
            × (or_empty (env "SSHBROKER_KMS_KEY_ID") ≢ ""))
    auth_ok : contains ("file" ∷ "db" ∷ []) (getenv env "SSHBROKER_AUTH_BACKEND" "file") ≡ true
    authz_ok : contains ("file" ∷ "db" ∷ []) (getenv env "SSHBROKER_AUTHZ_BACKEND" "file") ≡ true

  settled :
      (environment log_level database_url : String) (u : Unit {0})
      → check_settings lib env environment log_level database_url ≡ accept u
      → Settled environment log_level database_url
  unfolding check_settings
  settled environment log_level database_url u h =
      let (_, (e₁, h₁)) = accepted _ _ h in
      let (_, (e₂, h₂)) = accepted _ _ h₁ in
      let (_, (e₃, h₃)) = accepted _ _ h₂ in
      let (v, (e₄, h₄)) = accepted _ _ h₃ in
      let (_, (e₅, h₅)) = accepted _ _ h₄ in
      let named : not (database_url == "") ≡ true = ensured _ _ _ e₃ in
      record {
        environment_ok = ensured _ _ _ e₁;
        log_level_ok = ensured _ _ _ e₂;
        database_ok = λ z. ground (arith, eq_iff database_url "");
        ca_ok = check_ca_backend-eq-accept lib env _ _ v e₄;
        auth_ok = ensured _ _ _ e₅;
        authz_ok = ensured _ _ _ h₅;
      }

  checked_length :
      (k key : Bytes)
      → (ensure (eqb (length k) 32) short_secret_key >> accept k) ≡ accept key
      → length key ≡ 32
  checked_length k key h = ground arith

  secret_key-length : (key : Bytes) → secret_key lib env ≡ accept key → length key ≡ 32
  unfolding secret_key
  secret_key-length key h =
      let raw = or_empty (env "SSHBROKER_SECRET_STORE_KEY") in
      let (_, (e₁, h₁)) = accepted (ensure (not (raw == "")) no_secret_key) _ h in
      let (k, (e₂, h₂)) = accepted (or_fail (lib.decode_base64 raw) bad_secret_key) _ h₁ in
      checked_length k key h₂

  login_timeout_positive : pos 1 ≤ℤ login_timeout lib env
  unfolding login_timeout
  login_timeout_positive = ground arith

  -- A configuration that Load returns has a known environment, log level and backends, a database,
  -- a key id where the CA is in KMS, a secret key of 32 bytes, a positive cap on lifetimes, a clock
  -- skew that is not negative and a positive time to wait for a login in the browser.
  pub load-IsValid : (c : Config) → load lib env ≡ accept c → IsValid lib c
  unfolding load
  load-IsValid c h =
      let (u, (e₁, h₁)) =
        accepted
          (check_settings lib env (getenv env "SSHBROKER_ENV" "dev")
            (getenv env "SSHBROKER_LOG_LEVEL" "info") (or_empty (env "SSHBROKER_DATABASE_URL")))
          _ h in
      let (key, (e₂, h₂)) = accepted (secret_key lib env) _ h₁ in
      let (shutdown, (e₃, h₃)) =
        accepted (duration lib env "SSHBROKER_SHUTDOWN_TIMEOUT" "10s" bad_shutdown_timeout) _ h₂ in
      let (revocation, (e₄, h₄)) =
        accepted (duration lib env "SSHBROKER_REVOCATION_INTERVAL" "10s" bad_revocation_interval) _
          h₃ in
      let (max_ttl, (e₅, h₅)) =
        accepted (duration lib env "SSHBROKER_CERT_MAX_TTL" "5m" bad_max_ttl) _ h₄ in
      let (_, (e₆, h₆)) =
        accepted (ensure (not (leb_ℤ max_ttl (pos 0))) max_ttl_not_positive) _ h₅ in
      let (skew, (e₇, h₇)) =
        accepted (duration lib env "SSHBROKER_CERT_CLOCK_SKEW" "1m" bad_clock_skew) _ h₆ in
      let (_, (e₈, h₈)) = accepted (ensure (not (ltb_ℤ skew (pos 0))) clock_skew_negative) _ h₇ in
      let s =
        settled (getenv env "SSHBROKER_ENV" "dev") (getenv env "SSHBROKER_LOG_LEVEL" "info")
          (or_empty (env "SSHBROKER_DATABASE_URL")) u e₁ in
      let positive : not (leb_ℤ max_ttl (pos 0)) ≡ true = ensured _ _ _ e₆ in
      let nonnegative : not (ltb_ℤ skew (pos 0)) ≡ true = ensured _ _ _ e₈ in
      subst (IsValid lib)
        (accept_injective (assembled lib env key shutdown revocation max_ttl skew) c h₈)
        (record {
          environment = s.environment_ok;
          log_level = s.log_level_ok;
          database = s.database_ok;
          ca_backend = s.ca_ok;
          auth_backend = s.auth_ok;
          authz_backend = s.authz_ok;
          secret_store_key = secret_key-length key e₂;
          max_ttl = ground arith;
          clock_skew = ground arith;
          browser_login_timeout = login_timeout_positive;
        })
