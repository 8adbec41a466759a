-- ===== src/Proxy/DbAuthz/Sets.antt =====
-- internal/proxy/dbauthz.go: the lists of accounts as sets.
use ssh_access.Prelude.{
  String, ◌≡◌, refl, Bool, false, ◌&&◌, ◌||◌, List, [], ◌∷◌, ◌++◌, arith, eq_iff, contains,
  contains-append, Distinct, is_empty, any,
}
use ssh_access.Proxy.DbAuthz.{
  ResolvedServer, ResolvedGrant, grant_principals, intersect, dedup_loop, dedup, usable_accounts,
}

contains-dedup_loop :
    (out xs : List String) (a : String)
    → contains (dedup_loop out xs) a ≡ (contains out a || contains xs a)
unfolding dedup_loop contains
contains-dedup_loop out [] a = ground arith
contains-dedup_loop out (x ∷ xs) a = ground (
  arith,
  contains-dedup_loop out xs a,
  contains-dedup_loop (out ++ x ∷ []) xs a,
  contains-append out (x ∷ []) a,
  eq_iff x a,
)

Distinct-concat :
    (out : List String) (x : String)
    → contains out x ≡ false
    → Distinct out
    → Distinct (out ++ x ∷ [])
unfolding contains
Distinct-concat [] x h d = (refl, tt)
Distinct-concat (y ∷ out) x h d =
    ground (arith, Distinct-concat out x, contains-append out (x ∷ []) y, eq_iff x y, eq_iff y x)

Distinct-dedup_loop : (out xs : List String) → Distinct out → Distinct (dedup_loop out xs)
unfolding dedup_loop
Distinct-dedup_loop out [] d = d
Distinct-dedup_loop out (x ∷ xs) d = ground (
  arith,
  Distinct-dedup_loop out xs,
  Distinct-dedup_loop (out ++ x ∷ []) xs,
  Distinct-concat out x,
)

contains-intersect :
    (xs ys : List String) (a : String)
    → contains (intersect xs ys) a ≡ (contains xs a && contains ys a)
unfolding intersect contains
contains-intersect [] ys a = refl
contains-intersect (x ∷ xs) ys a = ground (arith, contains-intersect xs ys a, eq_iff x a)

Distinct-intersect : (xs ys : List String) → Distinct xs → Distinct (intersect xs ys)
unfolding intersect
Distinct-intersect [] ys d = tt
Distinct-intersect (x ∷ xs) ys d =
    ground (arith, Distinct-intersect xs ys d.1, contains-intersect xs ys x)

-- Some grant permits the account.
abbrev pub granted : List ResolvedGrant → String → Bool
granted grants a = any (λ g. contains g.principals a) grants

contains-grant_principals :
    (grants : List ResolvedGrant) (a : String)
    → contains (grant_principals grants) a ≡ granted grants a
unfolding grant_principals contains
contains-grant_principals [] a = refl
contains-grant_principals (g ∷ gs) a =
    ground
      (arith, contains-append g.principals (grant_principals gs) a, contains-grant_principals gs a)

-- Some grant permits the account, and the server's allowlist, where there is one, names it.
abbrev pub permitted : ResolvedServer → List ResolvedGrant → String → Bool
permitted server grants a =
    granted grants a && (is_empty server.allowed_principals || contains server.allowed_principals a)

pub contains-usable_accounts :
    (server : ResolvedServer) (grants : List ResolvedGrant) (a : String)
    → contains (usable_accounts server grants) a ≡ permitted server grants a
unfolding usable_accounts dedup contains
contains-usable_accounts server grants a = ground (
  arith,
  contains-dedup_loop [] (grant_principals grants) a,
  contains-grant_principals grants a,
  contains-intersect (dedup_loop [] (grant_principals grants)) server.allowed_principals a,
)

pub Distinct-usable_accounts :
    (server : ResolvedServer) (grants : List ResolvedGrant)
    → Distinct (usable_accounts server grants)
unfolding usable_accounts dedup
Distinct-usable_accounts server grants =
    let d = Distinct-dedup_loop [] (grant_principals grants) tt in
    ground (
      arith,
      d,
      Distinct-intersect (dedup_loop [] (grant_principals grants)) server.allowed_principals d,
    )
