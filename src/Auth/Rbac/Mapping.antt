-- ===== src/Auth/Rbac/Mapping.antt =====
-- internal/auth/rbac.go: the roles that Entra groups give.
use mathlib.Core.Path.{subst}
use ssh_access.Prelude.{
  String, Bool, true, false, ◌&&◌, ◌||◌, not, ◌==◌, eq_iff, eq_refl, ◌≡◌, refl, inl, inr, ◌∙◌, ap,
  Option, none, some, List, [], ◌∷◌, contains, any, contains-sort, Distinct, Distinct-sort, lookup,
  lookup-put, put, cut, split, trim_space, arith, if◌then◌else◌, Bool-cases, if_elim,
}
use ssh_access.Auth.Rbac.{
  GroupRoleMapping, role_exists, roles_loop, roles_for_groups, parse_pair, parse_loop, put_pair,
  parse_group_role_mapping, add_role, mark_seen,
}

abbrev is_role : Option String → String → Bool
is_role none role = false
is_role (some r) role = r == role

-- A group of the list, without the space around it, is mapped to the role.
abbrev pub gives : GroupRoleMapping → String → String → Bool
gives m role group = is_role (lookup (trim_space group) m) role

contains-add_role :
    (o : Option String) (seen rest : List String) (role : String)
    → contains (add_role o seen rest) role
      ≡ ((is_role o role && not (contains seen role)) || contains rest role)
unfolding contains
contains-add_role none seen rest role = refl
contains-add_role (some r) seen rest role = elim (Bool-cases (r == role)) [
  | inl e ↦ ground (arith, ap (contains seen) ((eq_iff r role).0 e))
  | inr e ↦ ground arith
]

contains-mark_seen :
    (o : Option String) (seen : List String) (role : String)
    → contains (mark_seen o seen) role ≡ (is_role o role || contains seen role)
unfolding contains
contains-mark_seen none seen role = refl
contains-mark_seen (some r) seen role = refl

contains-roles_loop :
    (m : GroupRoleMapping) (seen gs : List String) (role : String)
    → contains (roles_loop m seen gs) role ≡ (any (gives m role) gs && not (contains seen role))
unfolding roles_loop contains
contains-roles_loop m seen [] role = refl
contains-roles_loop m seen (g ∷ gs) role = ground (
  arith,
  contains-add_role (lookup (trim_space g) m) seen
      (roles_loop m (mark_seen (lookup (trim_space g) m) seen) gs) role,
  contains-mark_seen (lookup (trim_space g) m) seen role,
  contains-roles_loop m (mark_seen (lookup (trim_space g) m) seen) gs role,
)

Distinct-add_role :
    (o : Option String) (seen rest : List String)
    → Distinct rest
    → ((r : String) → o ≡ some r → contains rest r ≡ false)
    → Distinct (add_role o seen rest)
Distinct-add_role none seen rest d h = d
Distinct-add_role (some r) seen rest d h =
    if_elim Distinct (contains seen r) (λ e. d) (λ e. (h r refl, d))

Distinct-roles_loop :
    (m : GroupRoleMapping) (seen gs : List String) → Distinct (roles_loop m seen gs)
unfolding roles_loop
Distinct-roles_loop m seen [] = tt
Distinct-roles_loop m seen (g ∷ gs) =
    let role = lookup (trim_space g) m in
    Distinct-add_role role seen (roles_loop m (mark_seen role seen) gs)
      (Distinct-roles_loop m (mark_seen role seen) gs)
      (λ r e.
        contains-roles_loop m (mark_seen role seen) gs r
        ∙ ground (arith, contains-mark_seen role seen r, ap (λ o. is_role o r) e, eq_refl r))

-- The roles of a set of groups are exactly those to which the mapping takes one of the groups, spaces
-- around it removed, and each occurs once.
pub roles_for_groups_iff :
    (m : GroupRoleMapping) (groups : List String) (role : String)
    → (contains (roles_for_groups m groups) role ≡ any (gives m role) groups)
      × Distinct (roles_for_groups m groups)
unfolding roles_for_groups contains
roles_for_groups_iff m groups role = (
  contains-sort (roles_loop m [] groups) role ∙ contains-roles_loop m [] groups role ∙ ground arith,
  Distinct-sort (roles_loop m [] groups) (Distinct-roles_loop m [] groups),
)

-- Every group of the mapping is named, and its role is a built-in one.
abbrev pub IsKnown : GroupRoleMapping → Type 0
IsKnown m =
    (g role : String) → lookup g m ≡ some role → ((g == "") ≡ false) × (role_exists role ≡ true)

IsKnown-put :
    (group role : String) (m : GroupRoleMapping)
    → (group == "") ≡ false
    → role_exists role ≡ true
    → IsKnown m
    → IsKnown (put group role m)
IsKnown-put group role m named known k g r e = elim (Bool-cases (group == g)) [
  | inl q ↦
      let same : role ≡ r = ground (arith, lookup-put group g role m) in
      (
        subst (λ i. (i == "") ≡ false) ((eq_iff group g).0 q) named,
        subst (λ i. role_exists i ≡ true) same known,
      )
  | inr q ↦ k g r (ground (arith, lookup-put group g role m))
]

IsKnown-put_pair :
    (pair : String) (m : GroupRoleMapping) → IsKnown m → IsKnown (put_pair (parse_pair pair) m)
unfolding parse_pair
IsKnown-put_pair pair m k =
    elim (cut b':' (trim_space pair))
      as (λ o. IsKnown (
        put_pair
          (elim o [
            | none ↦ none
            | some (g, r) ↦
                if trim_space g == "" || not (role_exists (trim_space r))
                then none
                else some (trim_space g, trim_space r)
          ])
          m)) [
            | none ↦ k
            | some (g, r) ↦
                if_elim (λ o. IsKnown (put_pair o m))
                  (trim_space g == "" || not (role_exists (trim_space r))) (λ e. k)
                  (λ e. IsKnown-put (trim_space g) (trim_space r) m (ground arith) (ground arith) k)
          ]

IsKnown-parse_loop :
    (pairs : List String) (m : GroupRoleMapping) → IsKnown m → IsKnown (parse_loop m pairs)
unfolding parse_loop
IsKnown-parse_loop [] m k = k
IsKnown-parse_loop (pair ∷ pairs) m k = IsKnown-parse_loop pairs _ (
    if_elim (λ o. IsKnown (put_pair o m)) (trim_space pair == "") (λ e. k)
      (λ e. IsKnown-put_pair pair m k))

-- Whatever the text of the mapping, it has only named groups and built-in roles.
pub IsKnown-parse_group_role_mapping : (text : String) → IsKnown (parse_group_role_mapping text)
unfolding parse_group_role_mapping lookup
IsKnown-parse_group_role_mapping text =
    IsKnown-parse_loop (split b',' text) [] (λ g r e. absurd (ground arith))
