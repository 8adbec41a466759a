-- ===== src/Proxy/Connect.antt =====
-- internal/proxy/dial.go: the connection from the broker to the target. Key generation, the check of
-- NewCertSigner and the dialing are arguments; `none` and `false` are their errors.
pub mod Narrow
use ssh_access.Prelude.{
  ℕ, String, Bool, true, false, ◌==◌, ◌||◌, ◌+++◌, Option, none, some, List, if◌then◌else◌,
}
use ssh_access.Prelude.Int.{ℤ}
use ssh_access.Ca.Issuer.{Issuer, IssueParams, Certificate, Result, ok, err, Error, issue}
use ssh_access.Proxy.Types.{Identity, TargetSpec, Decision}

-- hostKeyCallback: whether a target whose key has this fingerprint is accepted
unfoldable pub host_key_callback : String → String → Bool
host_key_callback fingerprint got = fingerprint == "" || got == fingerprint

-- What ssh.Dial is called with.
pub record DialRequest (Key : Type 0) : Type 0 where
  pub address : String
  pub user : String
  pub certificate : Certificate Key
  pub accepts_host_key : String → Bool

pub data Connection (Key Client : Type 0) : Type 0 where
  no_ephemeral_key : Connection Key Client
  not_issued : Error → Connection Key Client
  no_cert_signer : Connection Key Client
  -- the serial number of the certificate is reported
  not_dialed : ℕ → Connection Key Client
  connected : Client → ℕ → Connection Key Client

-- fmt.Sprintf("u=%s;host=%s;login=%s", …)
abbrev pub key_id : Identity → TargetSpec → Decision → String
key_id id spec d = "u=" +++ id.label +++ ";host=" +++ spec.host +++ ";login=" +++ d.login

module _ {Key : Type 0} where
  abbrev pub issue_params : String → Identity → TargetSpec → Decision → Key → IssueParams Key
  issue_params broker_source_addr id spec d key = record {
    user_public_key = some key;
    principals = d.principals;
    ttl = d.ttl;
    source_address = broker_source_addr;
    key_id = key_id id spec d;
    permissions = d.cert_permissions;
  }

  abbrev pub dial_request : Decision → Certificate Key → DialRequest Key
  dial_request d cert = record {
    address = d.address;
    user = d.login;
    certificate = cert;
    accepts_host_key = host_key_callback d.host_key_fingerprint;
  }

module _ {Key Client : Type 0} where
  abbrev pub dialed : ℕ → Option Client → Connection Key Client
  dialed serial none = not_dialed serial
  dialed serial (some client) = connected client serial

  abbrev pub with_certificate :
      (Certificate Key → Bool)
      → (DialRequest Key → Option Client)
      → Decision
      → Result (Certificate Key)
      → Connection Key Client
  with_certificate new_cert_signer dial d (err e) = not_issued e
  with_certificate new_cert_signer dial d (ok cert) =
      if new_cert_signer cert
      then dialed cert.serial (dial (dial_request d cert))
      else no_cert_signer

module _ {Key S Client : Type 0} where
  -- connectTarget at the given time
  unfoldable pub connect_target :
      Issuer Key S
      → String
      → Option Key
      → (Certificate Key → Bool)
      → (DialRequest Key → Option Client)
      → Identity
      → TargetSpec
      → Decision
      → ℤ
      → S
      → Connection Key Client × S
  connect_target i broker_source_addr none new_cert_signer dial id spec d time s =
      (no_ephemeral_key, s)
  connect_target i broker_source_addr (some key) new_cert_signer dial id spec d time s =
      let issued = issue i (issue_params broker_source_addr id spec d key) time s in
      (with_certificate new_cert_signer dial d issued.0, issued.1)
