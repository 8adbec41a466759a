-- ===== src/Config.antt =====
-- internal/config/config.go: the configuration from the environment. strings.ToLower, time.ParseDuration,
-- base64.StdEncoding and strconv.Atoi are the record Library.
pub mod Settings
pub mod Certificates
use ssh_access.Prelude.{
  ℕ, String, Bool, true, false, not, ◌&&◌, ◌||◌, ◌==◌, Option, none, some, List, [], ◌∷◌, eqb,
  length, contains, if◌then◌else◌,
}
use ssh_access.Prelude.Int.{ℤ, pos, leb_ℤ, ltb_ℤ}
use ssh_access.Prelude.Bytes.{Bytes}

-- os.LookupEnv
abbrev pub Environ : Type 0
Environ = String → Option String

pub record Library : Type 0 where
  pub to_lower : String → String
  pub parse_duration : String → Option ℤ
  pub decode_base64 : String → Option Bytes
  pub atoi : String → Option ℤ

pub data ConfigError : Type 0 where
  bad_environment bad_log_level no_database_url no_kms_key_id bad_ca_backend : ConfigError
  bad_auth_backend bad_authz_backend no_secret_key bad_secret_key short_secret_key : ConfigError
  bad_shutdown_timeout bad_revocation_interval bad_max_ttl max_ttl_not_positive : ConfigError
  bad_clock_skew clock_skew_negative : ConfigError

pub data Loading (A : Type 0) : Type 0 where
  accept : A → Loading A
  reject : ConfigError → Loading A

infixl 5 ◌>>=◌ ◌>>◌
abbrev pub ◌>>=◌ : {A B : Type 0} → Loading A → (A → Loading B) → Loading B
reject fault >>= step = reject fault
accept value >>= step = step value

abbrev pub ◌>>◌ : {A B : Type 0} → Loading A → Loading B → Loading B
first >> rest = first >>= (λ ignored. rest)

abbrev pub ensure : Bool → ConfigError → Loading (Unit {0})
ensure holds fault = if holds then accept tt else reject fault

abbrev pub or_fail : {A : Type 0} → Option A → ConfigError → Loading A
or_fail none e = reject e
or_fail (some a) e = accept a

pub record Config : Type 0 where
  pub environment : String
  pub log_level : String
  pub health_addr : String
  pub database_url : String
  pub ca_backend : String
  pub auth_backend : String
  pub authz_backend : String
  pub ca_key_path : String
  pub ca_key_passphrase : String
  pub kms_key_id : String
  pub aws_region : String
  pub secret_store_dir : String
  pub secret_store_key : Bytes
  pub cert_max_ttl : ℤ
  pub cert_clock_skew : ℤ
  pub broker_source_addr : String
  pub ssh_listen_addr : String
  pub ssh_host_key_path : String
  pub authorized_users_path : String
  pub targets_path : String
  pub shutdown_timeout : ℤ
  pub revocation_interval : ℤ
  pub recording_dir : String
  pub asciinema_server_url : String
  pub asciinema_bin : String
  pub delete_local_recording_after_upload : Bool
  pub auth_url : String
  pub browser_login_url_base : String
  pub browser_login_timeout : ℤ
  pub jit_provision : Bool

-- os.Getenv
abbrev or_empty : Option String → String
or_empty none = ""
or_empty (some v) = v

-- getenv
unfoldable pub getenv : Environ → String → String → String
getenv env key fallback = elim (env key) [
  | none ↦ fallback
  | some v ↦ if v == "" then fallback else v
]

abbrev pub two_minutes : ℤ
two_minutes = pos 120000000000

abbrev positive_or : Option ℤ → ℤ → ℤ
positive_or none d = d
positive_or (some t) d = if ltb_ℤ (pos 0) t then t else d

module _ (lib : Library) (env : Environ) where
  -- ReviewIntervalDays
  unfoldable pub review_interval_days : ℤ
  review_interval_days =
      let v = or_empty (env "SSHBROKER_REVIEW_INTERVAL_DAYS") in
      if v == "" then pos 90 else positive_or (lib.atoi v) (pos 90)

  -- The switch on the CA backend.
  unfoldable pub check_ca_backend : String → String → Loading (Unit {0})
  check_ca_backend ca_backend kms_key_id =
      if ca_backend == "file"
      then accept tt
      else if ca_backend == "kms"
      then ensure (not (kms_key_id == "")) no_kms_key_id
      else reject bad_ca_backend

  unfoldable pub secret_key : Loading Bytes
  secret_key = do
    let raw = or_empty (env "SSHBROKER_SECRET_STORE_KEY")
    ensure (not (raw == "")) no_secret_key
    key ← or_fail (lib.decode_base64 raw) bad_secret_key
    ensure (eqb (length key) 32) short_secret_key
    accept key

  -- A duration of the environment.
  unfoldable pub duration : String → String → ConfigError → Loading ℤ
  unfolding getenv
  duration key fallback e = or_fail (lib.parse_duration (getenv env key fallback)) e

  unfoldable pub login_timeout : ℤ
  login_timeout =
      let v = or_empty (env "SSHBROKER_SSH_LOGIN_TIMEOUT") in
      if v == "" then two_minutes else positive_or (lib.parse_duration v) two_minutes

  -- The checks that come before the durations.
  unfoldable pub check_settings : String → String → String → Loading (Unit {0})
  unfolding check_ca_backend getenv contains
  check_settings environment log_level database_url = do
    ensure (contains ("dev" ∷ "prod" ∷ []) environment) bad_environment
    ensure (contains ("debug" ∷ "info" ∷ "warn" ∷ "error" ∷ []) (lib.to_lower log_level))
        bad_log_level
    ensure (not (database_url == "")) no_database_url
    check_ca_backend (getenv env "SSHBROKER_CA_BACKEND" "file")
        (or_empty (env "SSHBROKER_KMS_KEY_ID"))
    ensure (contains ("file" ∷ "db" ∷ []) (getenv env "SSHBROKER_AUTH_BACKEND" "file"))
        bad_auth_backend
    ensure (contains ("file" ∷ "db" ∷ []) (getenv env "SSHBROKER_AUTHZ_BACKEND" "file"))
        bad_authz_backend

  -- The configuration from the values that were checked and those that are taken as they are.
  abbrev pub assembled : Bytes → ℤ → ℤ → ℤ → ℤ → Config
  assembled key shutdown_timeout revocation_interval max_ttl skew = record {
    environment = getenv env "SSHBROKER_ENV" "dev";
    log_level = getenv env "SSHBROKER_LOG_LEVEL" "info";
    health_addr = getenv env "SSHBROKER_HEALTH_ADDR" ":8080";
    database_url = or_empty (env "SSHBROKER_DATABASE_URL");
    ca_backend = getenv env "SSHBROKER_CA_BACKEND" "file";
    auth_backend = getenv env "SSHBROKER_AUTH_BACKEND" "file";
    authz_backend = getenv env "SSHBROKER_AUTHZ_BACKEND" "file";
    ca_key_path = getenv env "SSHBROKER_CA_KEY_PATH" "dev/ca_key";
    ca_key_passphrase = or_empty (env "SSHBROKER_CA_KEY_PASSPHRASE");
    kms_key_id = or_empty (env "SSHBROKER_KMS_KEY_ID");
    aws_region = or_empty (env "SSHBROKER_AWS_REGION");
    secret_store_dir = getenv env "SSHBROKER_SECRET_STORE_DIR" "dev/secrets";
    secret_store_key = key;
    cert_max_ttl = max_ttl;
    cert_clock_skew = skew;
    broker_source_addr = or_empty (env "SSHBROKER_BROKER_SOURCE_ADDR");
    ssh_listen_addr = getenv env "SSHBROKER_SSH_LISTEN_ADDR" ":2222";
    ssh_host_key_path = getenv env "SSHBROKER_SSH_HOST_KEY_PATH" "dev/host_key";
    authorized_users_path = getenv env "SSHBROKER_AUTHORIZED_USERS_PATH" "dev/authorized_users";
    targets_path = getenv env "SSHBROKER_TARGETS_PATH" "dev/targets.json";
    shutdown_timeout = shutdown_timeout;
    revocation_interval = revocation_interval;
    recording_dir = or_empty (env "SSHBROKER_RECORDING_DIR");
    asciinema_server_url = or_empty (env "SSHBROKER_ASCIINEMA_SERVER_URL");
    asciinema_bin = getenv env "SSHBROKER_ASCIINEMA_BIN" "asciinema";
    delete_local_recording_after_upload =
        not (or_empty (env "SSHBROKER_DELETE_LOCAL_RECORDING_AFTER_UPLOAD") == "false");
    auth_url = or_empty (env "SSHBROKER_AUTH_URL");
    browser_login_url_base = or_empty (env "SSHBROKER_SSH_LOGIN_URL_BASE");
    browser_login_timeout = login_timeout;
    jit_provision = not (or_empty (env "SSHBROKER_SSH_JIT_PROVISION") == "false");
  }

  -- Load
  unfoldable pub load : Loading Config
  unfolding check_settings secret_key duration login_timeout
  load = do
    check_settings (getenv env "SSHBROKER_ENV" "dev") (getenv env "SSHBROKER_LOG_LEVEL" "info")
        (or_empty (env "SSHBROKER_DATABASE_URL"))
    key ← secret_key
    shutdown_timeout ← duration "SSHBROKER_SHUTDOWN_TIMEOUT" "10s" bad_shutdown_timeout
    revocation_interval ← duration "SSHBROKER_REVOCATION_INTERVAL" "10s" bad_revocation_interval
    max_ttl ← duration "SSHBROKER_CERT_MAX_TTL" "5m" bad_max_ttl
    ensure (not (leb_ℤ max_ttl (pos 0))) max_ttl_not_positive
    skew ← duration "SSHBROKER_CERT_CLOCK_SKEW" "1m" bad_clock_skew
    ensure (not (ltb_ℤ skew (pos 0))) clock_skew_negative
    accept (assembled key shutdown_timeout revocation_interval max_ttl skew)

-- IsProd
unfoldable pub is_prod : Config → Bool
is_prod c = c.environment == "prod"
