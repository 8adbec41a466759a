-- ===== src/Proxy/Types.antt =====
-- The types that the parts of internal/proxy share: identity.go, authz.go and the subject types of
-- internal/model/model.go. A Go string type is a string.
use ssh_access.Prelude.{String, Bool, List}
use ssh_access.Prelude.Int.{ℤ}
use ssh_access.Ca.Issuer.{Permissions}

abbrev pub SubjectType : Type 0
SubjectType = String

abbrev pub subject_user : SubjectType
subject_user = "user"

abbrev pub subject_user_group : SubjectType
subject_user_group = "user_group"

abbrev pub subject_service_account : SubjectType
subject_service_account = "service_account"

pub record Identity : Type 0 where
  pub subject : SubjectType
  pub id : String
  pub label : String

pub record TargetSpec : Type 0 where
  pub requested_login : String
  pub host : String

pub record Decision : Type 0 where
  pub address : String
  pub host_key_fingerprint : String
  pub login : String
  pub principals : List String
  pub ttl : ℤ
  pub cert_permissions : Permissions
  pub recording : String
  pub allow_shell : Bool
  pub allow_exec : Bool
  pub allow_sftp : Bool

-- What a denial says to the operator; the client is told none of it. All but `bad_grant_ttl` wrap
-- ErrTargetUnauthorized.
pub data Denial : Type 0 where
  backend_failed host_not_found no_grant no_usable_account ambiguous_account : Denial
  account_not_usable not_in_allowlist explicit_account_required bad_grant_ttl : Denial

pub data Authorization : Type 0 where
  allow : Decision → Authorization
  deny : Denial → Authorization
