-- ===== src/Auth/Rbac.antt =====
-- internal/auth/rbac.go: permissions, roles and the mapping from Entra groups. A map with Boolean values
-- is the list of its keys, in which an entry may occur twice; membership is what the program asks of it.
pub mod Roles
pub mod Mapping
use ssh_access.Prelude.{
  ℕ, String, Bool, true, false, ◌&&◌, ◌||◌, not, ◌==◌, Option, none, some, List, [], ◌∷◌, ◌++◌,
  filter, contains, sort, lookup, put, has_suffix, split, cut, trim_space, if◌then◌else◌, is_some,
  is_empty,
}

-- AllPermissions
unfoldable pub all_permissions : List String
all_permissions =
    "users:read" ∷ "users:write" ∷ "servers:read" ∷ "servers:write" ∷ "groups:read" ∷ "groups:write"
    ∷ "grants:read" ∷ "grants:write" ∷ "grants:recertify" ∷ "sessions:read" ∷ "sessions:terminate"
    ∷ "audit:read" ∷ "recordings:read" ∷ []

-- readPermissions
unfoldable pub read_permissions : List String
unfolding all_permissions
read_permissions = filter (λ p. has_suffix p ":read") all_permissions

abbrev pub role_admin : String
role_admin = "admin"

abbrev pub role_auditor : String
role_auditor = "auditor"

unfoldable pub builtin_roles : List (String × List String)
unfolding read_permissions
builtin_roles = (role_admin, all_permissions) ∷ (role_auditor, read_permissions) ∷ []

-- RoleExists
unfoldable pub role_exists : String → Bool
unfolding builtin_roles
role_exists role = is_some (lookup role builtin_roles)

-- builtinRoles[r], where an unknown role has no permissions
abbrev pub permissions_of : Option (List String) → List String
permissions_of none = []
permissions_of (some ps) = ps

-- PermissionsForRoles
unfoldable pub permissions_for_roles : List String → List String
unfolding builtin_roles
permissions_for_roles [] = []
permissions_for_roles (r ∷ rs) = permissions_of (lookup r builtin_roles) ++ permissions_for_roles rs

pub data Source : Type 0 where
  source_oidc source_break_glass : Source

pub record Principal : Type 0 where
  pub subject : String
  pub source : Source
  pub roles : List String
  pub perms : List String

-- NewPrincipal
unfoldable pub new_principal : String → Source → List String → Principal
unfolding permissions_for_roles
new_principal subject source roles =
    let sorted = sort roles in
    record {
      subject = subject;
      source = source;
      roles = sorted;
      perms = permissions_for_roles sorted;
    }

-- Can
unfoldable pub can : Principal → String → Bool
can p perm = contains p.perms perm

abbrev pub GroupRoleMapping : Type 0
GroupRoleMapping = List (String × String)

abbrev add_role : Option String → List String → List String → List String
add_role none seen rest = rest
add_role (some role) seen rest = if contains seen role then rest else role ∷ rest

abbrev mark_seen : Option String → List String → List String
mark_seen none seen = seen
mark_seen (some role) seen = role ∷ seen

-- The loop of RolesForGroups.
roles_loop : GroupRoleMapping → List String → List String → List String
roles_loop m seen [] = []
roles_loop m seen (g ∷ gs) =
    let role = lookup (trim_space g) m in add_role role seen (roles_loop m (mark_seen role seen) gs)

-- RolesForGroups
unfoldable pub roles_for_groups : GroupRoleMapping → List String → List String
unfolding roles_loop
roles_for_groups m groups = sort (roles_loop m [] groups)

-- What an entry of the text adds to the mapping; `none` where it is skipped.
parse_pair : String → Option (String × String)
unfolding role_exists
parse_pair pair = elim (cut b':' (trim_space pair)) [
  | none ↦ none
  | some (g, r) ↦
      let group = trim_space g in
      let role = trim_space r in
      if group == "" || not (role_exists role) then none else some (group, role)
]

abbrev put_pair : Option (String × String) → GroupRoleMapping → GroupRoleMapping
put_pair none m = m
put_pair (some (g, r)) m = put g r m

-- The loop of ParseGroupRoleMapping.
parse_loop : GroupRoleMapping → List String → GroupRoleMapping
parse_loop m [] = m
parse_loop m (pair ∷ pairs) =
    parse_loop (put_pair (if trim_space pair == "" then none else parse_pair pair) m) pairs

-- ParseGroupRoleMapping
unfoldable pub parse_group_role_mapping : String → GroupRoleMapping
unfolding parse_loop parse_pair
parse_group_role_mapping s = parse_loop [] (split b',' s)
