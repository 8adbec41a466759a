-- ===== src/Auth/Rbac/Roles.antt =====
-- internal/auth/rbac.go: what a principal may do.
use mathlib.Core.Path.{subst, ap₂}
use ssh_access.Prelude.{
  String, Bool, true, false, ◌&&◌, ◌||◌, ◌==◌, eq_iff, ◌≡◌, refl, inl, inr, ◌∙◌, ap, none, some,
  List, [], ◌∷◌, contains, contains-append, eq_swap, sort, contains-sort, lookup, has_suffix, arith,
  if◌then◌else◌, filter, Bool-cases,
}
use ssh_access.Auth.Rbac.{
  all_permissions, read_permissions, builtin_roles, permissions_for_roles, permissions_of,
  role_admin, role_auditor, Source, new_principal, can,
}

-- The permission that a set of roles gives, worked out from the two built-in roles.
abbrev pub allowed_by : List String → String → Bool
allowed_by roles perm =
    (contains roles role_admin && contains all_permissions perm)
    || (contains roles role_auditor && contains all_permissions perm && has_suffix perm ":read")

contains-filter :
    (q : String → Bool) (xs : List String) (a : String)
    → contains (filter q xs) a ≡ (contains xs a && q a)
unfolding contains
contains-filter q [] a = refl
contains-filter q (x ∷ xs) a = elim (Bool-cases (x == a)) [
  | inl e ↦ ground (arith, contains-filter q xs a, ap q ((eq_iff x a).0 e))
  | inr e ↦ ground (arith, contains-filter q xs a)
]

contains-choice :
    (b c : Bool) (xs ys : List String) (perm : String)
    → (b && c) ≡ false
    → contains (permissions_of (if b then some xs else if c then some ys else none)) perm
      ≡ ((b && contains xs perm) || (c && contains ys perm))
unfolding contains
contains-choice true true xs ys perm h = ground arith
contains-choice true false xs ys perm h = ground arith
contains-choice false true xs ys perm h = ground arith
contains-choice false false xs ys perm h = ground arith

two_roles : (r : String) → (role_admin == r && role_auditor == r) ≡ false
two_roles r = elim (Bool-cases (role_admin == r)) [
  | inl e ↦
      subst (λ q. (role_admin == q && role_auditor == q) ≡ false) ((eq_iff role_admin r).0 e) refl
  | inr e ↦ ap (λ b. b && role_auditor == r) e
]

contains-permissions_of :
    (r perm : String)
    → contains (permissions_of (lookup r builtin_roles)) perm ≡ (
        (role_admin == r && contains all_permissions perm)
        || (role_auditor == r && contains read_permissions perm))
unfolding lookup builtin_roles
contains-permissions_of r perm =
    contains-choice (role_admin == r) (role_auditor == r) all_permissions read_permissions perm
      (two_roles r)

contains-read_permissions :
    (perm : String)
    → contains read_permissions perm ≡ (contains all_permissions perm && has_suffix perm ":read")
unfolding read_permissions
contains-read_permissions perm = contains-filter (λ p. has_suffix p ":read") all_permissions perm

regroup :
    (a b a' b' p s : Bool)
    → (((a && p) || (b && (p && s))) || ((a' && p) || (b' && p && s)))
      ≡ (((a || a') && p) || ((b || b') && p && s))
regroup a b a' b' p s = ground arith

contains-permissions_for_roles :
    (roles : List String) (perm : String)
    → contains (permissions_for_roles roles) perm ≡ allowed_by roles perm
unfolding permissions_for_roles contains
contains-permissions_for_roles [] perm = refl
contains-permissions_for_roles (r ∷ rs) perm =
    contains-append (permissions_of (lookup r builtin_roles)) (permissions_for_roles rs) perm
    ∙ ap₂ ◌||◌
        (contains-permissions_of r perm
          ∙ ap₂
              (λ a b. (a && contains all_permissions perm) || (b && contains read_permissions perm))
              (eq_swap role_admin r) (eq_swap role_auditor r)
          ∙ ap (λ c. (r == role_admin && contains all_permissions perm) || (r == role_auditor && c))
              (contains-read_permissions perm))
        (contains-permissions_for_roles rs perm)
    ∙ regroup (r == role_admin) (r == role_auditor) (contains rs role_admin)
        (contains rs role_auditor) (contains all_permissions perm) (has_suffix perm ":read")

-- Whatever the order and the repetitions of its roles, a principal holds exactly the known permissions
-- if admin is among them, and exactly those of the known permissions that end in ":read" if
-- only auditor is.
pub can-new_principal :
    (subject : String) (source : Source) (roles : List String) (perm : String)
    → can (new_principal subject source roles) perm ≡ allowed_by roles perm
unfolding new_principal can
can-new_principal subject source roles perm = ground (
  arith,
  contains-permissions_for_roles (sort roles) perm,
  contains-sort roles role_admin,
  contains-sort roles role_auditor,
)
