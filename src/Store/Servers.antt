-- ===== src/Store/Servers.antt =====
-- internal/store/repositories.go and updates.go: servers and groups. A statement is one step on the tables;
-- `failed` stands for every error but the two that callers tell apart. The constraints are those of
-- the schema: an address and port are registered once, and hostnames may repeat.
use ssh_access.Prelude.{
  String, Bool, not, ◌&&◌, ◌||◌, ◌==◌, Option, List, [], ◌∷◌, map, any, contains, is_some,
  if◌then◌else◌,
}
use ssh_access.Prelude.Int.{ℤ, pos, leb_ℤ}
use ssh_access.Store.Users.{or_default}
use ssh_access.Store.Grants.{or_else}

pub data StoreError : Type 0 where
  not_found : StoreError
  conflict : StoreError
  failed : StoreError

pub data StoreResult (A : Type 0) : Type 0 where
  ok : A → StoreResult A
  err : StoreError → StoreResult A

-- A row of servers; a NULL fingerprint is read as the empty string.
pub record ServerRow : Type 0 where
  pub id : String
  pub hostname : String
  pub address : String
  pub port : ℤ
  pub host_key_fingerprint : String
  pub access_mode : String
  pub allowed_principals : List String
  pub secret_ref : Option String

-- A member of a group, by the ids of the group and of the member.
abbrev pub Members : Type 0
Members = List (String × String)

pub record CreateServerInput : Type 0 where
  pub hostname : String
  pub address : String
  pub port : ℤ
  pub host_key_fingerprint : String
  pub access_mode : String
  pub allowed_principals : List String
  pub secret_ref : Option String

abbrev pub same_int : ℤ → ℤ → Bool
same_int a b = leb_ℤ a b && leb_ℤ b a

abbrev access_modes : List String
access_modes = "cert" ∷ "jit_key" ∷ "stored_cred" ∷ []

-- The CHECK constraints of servers.
abbrev pub passes_checks : ServerRow → Bool
passes_checks s =
    leb_ℤ (pos 1) s.port
    && leb_ℤ s.port (pos 65535)
    && (s.access_mode == "cert" || is_some s.secret_ref)

abbrev pub same_endpoint : ServerRow → ServerRow → Bool
same_endpoint s t = s.address == t.address && same_int s.port t.port

abbrev pub new_server : String → CreateServerInput → ServerRow
new_server id input = record {
  id = id;
  hostname = input.hostname;
  address = input.address;
  port = if same_int input.port (pos 0) then pos 22 else input.port;
  host_key_fingerprint = input.host_key_fingerprint;
  access_mode = or_default "cert" input.access_mode;
  allowed_principals = input.allowed_principals;
  secret_ref = input.secret_ref;
}

-- CreateServer, with the id given to the new row
unfoldable pub create_server :
    String → CreateServerInput → List ServerRow → StoreResult (List ServerRow)
unfolding contains
create_server id input rows =
    let s = new_server id input in
    if not (contains access_modes s.access_mode && passes_checks s)
    then err failed
    else if any (same_endpoint s) rows
    then err conflict
    else ok (s ∷ rows)

pub record UpdateServerInput : Type 0 where
  pub hostname : Option String
  pub address : Option String
  pub port : Option ℤ
  pub host_key_fingerprint : Option String
  pub access_mode : Option String
  pub allowed_principals : Option (List String)

abbrev pub updated_server : UpdateServerInput → ServerRow → ServerRow
updated_server input s = record s {
  hostname = or_else input.hostname s.hostname;
  address = or_else input.address s.address;
  port = or_else input.port s.port;
  host_key_fingerprint = or_else input.host_key_fingerprint s.host_key_fingerprint;
  access_mode = or_else input.access_mode s.access_mode;
  allowed_principals = or_else input.allowed_principals s.allowed_principals;
}

abbrev pub has_server_id : String → ServerRow → Bool
has_server_id id s = s.id == id

abbrev sets_nothing : UpdateServerInput → Bool
sets_nothing input = not (
    is_some input.hostname
    || is_some input.address
    || is_some input.port
    || is_some input.host_key_fingerprint
    || is_some input.access_mode
    || is_some input.allowed_principals)

abbrev pub edited_server : String → UpdateServerInput → ServerRow → ServerRow
edited_server id input s = if has_server_id id s then updated_server input s else s

abbrev clashes : String → UpdateServerInput → List ServerRow → ServerRow → Bool
clashes id input rows s =
    has_server_id id s
    && any (λ t. not (has_server_id id t) && same_endpoint (updated_server input s) t) rows

-- UpdateServer
unfoldable pub update_server :
    String → UpdateServerInput → List ServerRow → StoreResult (List ServerRow)
unfolding contains
update_server id input rows =
    if sets_nothing input
    then ok rows
    else if not (contains access_modes (or_else input.access_mode "cert"))
    then err failed
    else if not (any (has_server_id id) rows)
    then err not_found
    else if any (λ s. has_server_id id s && not (passes_checks (updated_server input s))) rows
    then err failed
    else if any (clashes id input rows) rows
    then err conflict
    else ok (map (edited_server id input) rows)

-- A row of user_groups or server_groups.
pub record GroupRow : Type 0 where
  pub id : String
  pub name : String

-- CreateUserGroup and CreateServerGroup, with the id given to the new row
unfoldable pub create_group : String → String → List GroupRow → StoreResult (List GroupRow)
create_group id name groups =
    if any (λ (g : GroupRow). g.name == name) groups
    then err conflict
    else ok (record { id = id; name = name } ∷ groups)

abbrev is_pair : String → String → String × String → Bool
is_pair group member (g, m) = g == group && m == member

-- AddUserToGroup and AddServerToGroup, of a group and a member that exist or not; a member is not
-- added twice.
unfoldable pub add_member : String → String → Bool → Bool → Members → StoreResult Members
add_member group member group_exists member_exists members =
    if not (group_exists && member_exists)
    then err failed
    else if any (is_pair group member) members
    then ok members
    else ok ((group, member) ∷ members)
