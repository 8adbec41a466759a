-- ===== src/Proxy/MemAuthz.antt =====
-- internal/proxy/memauthz.go: authorization against a policy file. Reading the file and its JSON, and
-- time.ParseDuration, are arguments. A denial is named instead of spelled out.
pub mod FirstGrant
pub mod Within
use ssh_access.Prelude.{
  ℕ, String, Bool, true, false, not, ◌||◌, ◌==◌, Option, none, some, List, [], ◌∷◌, contains,
  if◌then◌else◌, lookup, put,
}
use ssh_access.Prelude.Int.{ℤ, pos}
use ssh_access.Proxy.Types.{
  Identity, TargetSpec, Decision, Authorization, allow, deny, host_not_found, no_grant,
  account_not_usable, explicit_account_required, bad_grant_ttl,
}

pub record GrantPolicy : Type 0 where
  pub subject : String
  pub principals : List String
  pub max_ttl : String
  pub shell : Bool
  pub exec : Bool
  pub sftp : Bool
  pub port_forward : Bool

pub record TargetPolicy : Type 0 where
  pub address : String
  pub host_key : String
  pub grants : List GrantPolicy

abbrev pub MemoryAuthorizer : Type 0
MemoryAuthorizer = List (String × TargetPolicy)

abbrev pub new_memory_authorizer : MemoryAuthorizer
new_memory_authorizer = []

-- The loop of LoadTargets over the targets of the file.
unfoldable pub load_loop : List (String × TargetPolicy) → MemoryAuthorizer → Option MemoryAuthorizer
load_loop [] a = some a
load_loop ((name, t) ∷ ts) a =
    let rest = load_loop ts (put name t a) in if name == "" || t.address == "" then none else rest

-- LoadTargets, of a file that was read and parsed or not
unfoldable pub load_targets : Option (List (String × TargetPolicy)) → Option MemoryAuthorizer
unfolding load_loop
load_targets none = none
load_targets (some targets) = load_loop targets new_memory_authorizer

-- time.ParseDuration; `none` is an error.
abbrev pub ParseDuration : Type 0
ParseDuration = String → Option ℤ

-- parseTTL
unfoldable pub parse_ttl : ParseDuration → String → Option ℤ
parse_ttl parse_duration s = if s == "" then some (pos 0) else parse_duration s

abbrev pub granted_decision : TargetPolicy → GrantPolicy → String → ℤ → Decision
granted_decision tp g login ttl = record {
  address = tp.address;
  host_key_fingerprint = tp.host_key;
  login = login;
  principals = login ∷ [];
  ttl = ttl;
  cert_permissions = record {
    pty = g.shell;
    port_forwarding = g.port_forward;
    agent_forwarding = false;
    x11_forwarding = false;
  };
  recording = "metadata";
  allow_shell = g.shell;
  allow_exec = g.exec;
  allow_sftp = g.sftp;
}

-- The decision from a grant that permits the login, or a denial where its lifetime does not parse.
abbrev pub by_grant : ParseDuration → TargetPolicy → String → GrantPolicy → Authorization
by_grant parse_duration tp login g = elim (parse_ttl parse_duration g.max_ttl) [
  | none ↦ deny bad_grant_ttl
  | some ttl ↦ allow (granted_decision tp g login ttl)
]

-- The loop over the grants; the flag is subjectHasGrant.
unfoldable pub authorize_loop :
    ParseDuration → Identity → TargetPolicy → String → Bool → List GrantPolicy → Authorization
authorize_loop parse_duration id tp login subject_has_grant [] =
    if subject_has_grant then deny account_not_usable else deny no_grant
authorize_loop parse_duration id tp login subject_has_grant (g ∷ gs) =
    let other = authorize_loop parse_duration id tp login subject_has_grant gs in
    let unpermitted = authorize_loop parse_duration id tp login true gs in
    if not (g.subject == id.label)
    then other
    else if not (contains g.principals login)
    then unpermitted
    else by_grant parse_duration tp login g

abbrev of_target : ParseDuration → Identity → TargetSpec → Option TargetPolicy → Authorization
of_target parse_duration id target none = deny host_not_found
of_target parse_duration id target (some tp) =
    if target.requested_login == ""
    then deny explicit_account_required
    else authorize_loop parse_duration id tp target.requested_login false tp.grants

-- (*MemoryAuthorizer).Authorize
unfoldable pub authorize : ParseDuration → MemoryAuthorizer → Identity → TargetSpec → Authorization
authorize parse_duration a id target = of_target parse_duration id target (lookup target.host a)
