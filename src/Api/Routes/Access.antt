-- ===== src/Api/Routes/Access.antt =====
-- internal/api/server.go: what the built-in roles reach.
use ssh_access.Prelude.{
  String, Bool, true, false, ◌&&◌, ◌||◌, not, ◌==◌, ◌≡◌, refl, ◌∙◌, some, List, [], ◌∷◌, contains,
  has_suffix, All, all, arith,
}
use ssh_access.Auth.Rbac.{
  Principal, new_principal, Source, can, all_permissions, role_admin, role_auditor,
}
use ssh_access.Auth.Rbac.Roles.{can-new_principal}
use ssh_access.Api.Principal.{require, require_auth}
use ssh_access.Api.Routes.{Guard, unguarded, any_principal, permission, admits, routes}

abbrev same : Bool → Bool → Bool
same true b = b
same false b = not b

-- The permission is known, and it is a reading one exactly on a GET route.
abbrev is_coherent : String × String × Guard → Bool
is_coherent (method, path, permission perm) =
    contains all_permissions perm && same (has_suffix perm ":read") (method == "GET")
is_coherent (method, path, g) = true

-- A route with a permission admits the principal if and only if it has the role admin, or the role
-- auditor and the route is a GET; the other guards admit every principal.
abbrev pub IsByRole : List String → Principal → String × String × Guard → Type 0
IsByRole roles p (method, path, permission perm) =
    admits (permission perm) (some p)
    ≡ (contains roles role_admin || (contains roles role_auditor && method == "GET"))
IsByRole roles p (method, path, g) = admits g (some p) ≡ true

routes_coherent : all is_coherent routes ≡ true
unfolding routes contains all_permissions has_suffix
routes_coherent = refl

admits-can : (perm : String) (p : Principal) → admits (permission perm) (some p) ≡ can p perm
unfolding admits require
admits-can perm p = ground arith

coherent_lem :
    (subject : String) (source : Source) (roles : List String) (route : String × String × Guard)
    → is_coherent route ≡ true
    → IsByRole roles (new_principal subject source roles) route
unfolding admits require_auth
coherent_lem subject source roles (method, path, unguarded) h = refl
coherent_lem subject source roles (method, path, any_principal) h = refl
coherent_lem subject source roles (method, path, permission perm) h =
    admits-can perm (new_principal subject source roles)
    ∙ can-new_principal subject source roles perm
    ∙ ground arith

all_of :
    {A : Type 0} {P : A → Type 0} (p : A → Bool) (lem : (x : A) → p x ≡ true → P x) (xs : List A)
    → all p xs ≡ true
    → All P xs
all_of p lem [] h = tt
all_of p lem (x ∷ xs) h = (lem x (ground arith), all_of p lem xs (ground arith))

-- On each route of the API that wants a permission, a principal is let through if and only if it has the
-- role admin, or it has the role auditor and the route is a GET.
pub routes-IsByRole :
    (subject : String) (source : Source) (roles : List String)
    → All (IsByRole roles (new_principal subject source roles)) routes
routes-IsByRole subject source roles =
    all_of is_coherent (coherent_lem subject source roles) routes routes_coherent
