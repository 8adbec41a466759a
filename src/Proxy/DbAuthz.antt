-- ===== src/Proxy/DbAuthz.antt =====
-- internal/proxy/dbauthz.go: authorization against the grants in the database. The backend is an
-- interface; `none` is an error that it returns. A denial is named instead of spelled out.
pub mod Sets
pub mod Resolve
pub mod Compose
pub mod Soundness
use Prim.Native.Char.{code}
use Prim.Native.String
use ssh_access.Prelude.{
  ℕ, String, Bool, true, false, not, ◌&&◌, ◌||◌, Option, none, some, List, [], ◌∷◌, ◌++◌, ◌==◌,
  contains, is_empty, if◌then◌else◌, ◌+++◌, zero, suc, ◌+◌, ◌/◌, ◌%◌, eqb,
}
use ssh_access.Prelude.Int.{ℤ, pos, negsuc, ltb_ℤ}
use ssh_access.Ca.Issuer.{Permissions}
use ssh_access.Proxy.Types.{
  Identity, TargetSpec, Decision, Denial, backend_failed, host_not_found, no_grant,
  no_usable_account, ambiguous_account, account_not_usable, not_in_allowlist, Authorization, allow,
  deny, subject_user,
}

pub record ResolvedServer : Type 0 where
  pub id : String
  pub address : String
  pub port : ℤ
  pub host_key_fingerprint : String
  pub allowed_principals : List String

pub record ResolvedGrant : Type 0 where
  pub principals : List String
  pub max_ttl : ℤ
  pub allow_shell : Bool
  pub allow_exec : Bool
  pub allow_sftp : Bool
  pub recording : String

pub record AuthzBackend : Type 0 where
  pub server_by_hostname : String → Option (Option ResolvedServer)
  pub groups_for_user : String → Option (List String)
  pub groups_for_server : String → Option (List String)
  pub matching_grants :
      String → String → List String → String → List String → Option (List ResolvedGrant)

unfoldable pub grant_principals : List ResolvedGrant → List String
grant_principals [] = []
grant_principals (g ∷ gs) = g.principals ++ grant_principals gs

pub intersect : List String → List String → List String
intersect [] b = []
intersect (x ∷ a) b = let rest = intersect a b in if contains b x then x ∷ rest else rest

pub server_port : ℤ → ℤ
server_port (pos zero) = pos 22
server_port p = p

-- The loop of `dedup`; `out` holds what `seen` holds.
dedup_loop : List String → List String → List String
dedup_loop out [] = out
dedup_loop out (s ∷ rest) = dedup_loop (if contains out s then out else out ++ s ∷ []) rest

pub dedup : List String → List String
unfolding dedup_loop
dedup xs = dedup_loop [] xs

digit_text : ℕ → String
digit_text d =
    if eqb d 0
    then "0"
    else if eqb d 1
    then "1"
    else if eqb d 2
    then "2"
    else if eqb d 3
    then "3"
    else if eqb d 4
    then "4"
    else if eqb d 5
    then "5"
    else if eqb d 6
    then "6"
    else if eqb d 7
    then "7"
    else if eqb d 8
    then "8"
    else "9"

decimal : ℕ → ℕ → String
unfolding digit_text
decimal zero n = ""
decimal (suc fuel) n =
    let more = decimal fuel (n / 10) +++ digit_text (n % 10) in
    if eqb (n / 10) 0 then digit_text (n % 10) else more

-- strconv.Itoa; a number has at most as many digits as one more than itself.
pub itoa : ℤ → String
unfolding decimal
itoa (pos n) = decimal (suc n) n
itoa (negsuc n) = "-" +++ decimal (suc (suc n)) (suc n)

has_colon : String → Bool
has_colon String.[] = false
has_colon (String.◌∷◌ c s) = eqb (code c) b':' || has_colon s

-- net.JoinHostPort
pub join_host_port : String → String → String
unfolding has_colon
join_host_port host port =
    if has_colon host then "[" +++ host +++ "]:" +++ port else host +++ ":" +++ port

-- The account that a connection gets, or why it gets none. The usable accounts of the subject on
-- the host come first.
pub data Resolution : Type 0 where
  account : String → Resolution
  refused : Denial → Resolution

derive_account : List String → Resolution
derive_account [] = refused no_usable_account
derive_account (a ∷ []) = account a
derive_account (a ∷ b ∷ rest) = refused ambiguous_account

-- resolvePrincipal
pub resolve_principal : Identity → TargetSpec → List String → Resolution
unfolding derive_account
resolve_principal id target usable =
    if not (target.requested_login == "") && contains usable target.requested_login
    then account target.requested_login
    else if target.requested_login == ""
        || target.requested_login == "me"
        || target.requested_login == id.label
    then derive_account usable
    else refused account_not_usable

-- One round of the composition over the grants.
pub add_grant : String → Decision → ResolvedGrant → Decision
add_grant chosen d g = if not (contains g.principals chosen) then d else (record d {
  ttl = if ltb_ℤ d.ttl g.max_ttl then g.max_ttl else d.ttl;
  allow_shell = d.allow_shell || g.allow_shell;
  allow_exec = d.allow_exec || g.allow_exec;
  allow_sftp = d.allow_sftp || g.allow_sftp;
  recording = if g.recording == "full" then "full" else d.recording;
})

pub add_grants : String → Decision → List ResolvedGrant → Decision
unfolding add_grant
add_grants chosen d [] = d
add_grants chosen d (g ∷ gs) = add_grants chosen (add_grant chosen d g) gs

abbrev pub no_permissions : Permissions
no_permissions = record {
  pty = false;
  port_forwarding = false;
  agent_forwarding = false;
  x11_forwarding = false;
}

abbrev pub base_decision : ResolvedServer → String → Decision
base_decision server chosen = record {
  address = join_host_port server.address (itoa (server_port server.port));
  host_key_fingerprint = server.host_key_fingerprint;
  login = chosen;
  principals = chosen ∷ [];
  ttl = pos 0;
  cert_permissions = no_permissions;
  recording = "";
  allow_shell = false;
  allow_exec = false;
  allow_sftp = false;
}

-- The defaults that are set after the loop.
pub finish : Decision → Decision
finish d = record d {
  recording = if d.recording == "" then "metadata" else d.recording;
  cert_permissions = record {
    pty = d.allow_shell;
    port_forwarding = false;
    agent_forwarding = false;
    x11_forwarding = false;
  };
}

unfoldable pub compose : ResolvedServer → List ResolvedGrant → String → Decision
unfolding add_grants finish
compose server grants chosen = finish (add_grants chosen (base_decision server chosen) grants)

-- The accounts that the subject may use on the host.
pub usable_accounts : ResolvedServer → List ResolvedGrant → List String
unfolding dedup intersect grant_principals
usable_accounts server grants =
    let permitted = dedup (grant_principals grants) in
    if is_empty server.allowed_principals
    then permitted
    else intersect permitted server.allowed_principals

-- `Authorize` from the matching grants on.
decide : Identity → TargetSpec → ResolvedServer → List ResolvedGrant → Authorization
unfolding resolve_principal compose usable_accounts
decide id target server grants =
    if is_empty grants
    then deny no_grant
    else (elim (resolve_principal id target (usable_accounts server grants)) [
      | refused why ↦ deny why
      | account chosen ↦
          if not (is_empty server.allowed_principals)
            && not (contains server.allowed_principals chosen)
          then deny not_in_allowlist
          else allow (compose server grants chosen)
    ])

-- A failing call of the backend denies.
infixl 5 ◌>>=◌
abbrev ◌>>=◌ : {A : Type 0} → Option A → (A → Authorization) → Authorization
none >>= k = deny backend_failed
some a >>= k = k a

or_not_found : Option ResolvedServer → (ResolvedServer → Authorization) → Authorization
or_not_found none k = deny host_not_found
or_not_found (some server) k = k server

user_groups : AuthzBackend → Identity → Option (List String)
user_groups b id = if id.subject == subject_user then b.groups_for_user id.id else some []

-- (*DBAuthorizer).Authorize
unfoldable pub authorize : AuthzBackend → Identity → TargetSpec → Authorization
unfolding decide or_not_found user_groups
authorize b id target = do
  found ← b.server_by_hostname target.host
  or_not_found found λ server. do
    groups ← user_groups b id
    server_groups ← b.groups_for_server server.id
    grants ← b.matching_grants id.subject id.id groups server.id server_groups
    decide id target server grants
