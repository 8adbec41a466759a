-- ===== src/Ca/Issuer/Principals.antt =====
-- internal/ca/issuer.go: the principals that a certificate is issued for.
use ssh_access.Prelude.{
  ap, Option-cases, ℕ, String, ◌≡◌, refl, false, not, ◌&&◌, ◌||◌, none, some, List, [], ◌∷◌, ◌++◌,
  arith, ◌==◌, eq_iff, contains, contains-append, contains-sort, Distinct, Distinct-sort, Sorted,
  Sorted-sort, is_empty, inl, inr,
}
use ssh_access.Prelude.Int.{ℤ}
use ssh_access.Ca.Issuer.{
  Issuer, IssueParams, Certificate, ok, dedupe_loop, dedupe_non_empty, issue, allocate_and_sign,
  sign, build,
}

contains-dedupe_loop :
    (out xs : List String) (a : String)
    → contains (dedupe_loop out xs) a ≡ (contains out a || (contains xs a && not (a == "")))
unfolding dedupe_loop contains
contains-dedupe_loop out [] a = ground arith
contains-dedupe_loop out (x ∷ xs) a = ground (
  arith,
  contains-dedupe_loop out xs a,
  contains-dedupe_loop (out ++ x ∷ []) xs a,
  contains-append out (x ∷ []) a,
  eq_iff x a,
  eq_iff x "",
  eq_iff a "",
)

Distinct-append :
    (out : List String) (x : String)
    → contains out x ≡ false
    → Distinct out
    → Distinct (out ++ x ∷ [])
unfolding contains
Distinct-append [] x h d = (refl, tt)
Distinct-append (y ∷ out) x h d =
    ground (arith, Distinct-append out x, contains-append out (x ∷ []) y, eq_iff x y, eq_iff y x)

Distinct-dedupe_loop : (out xs : List String) → Distinct out → Distinct (dedupe_loop out xs)
unfolding dedupe_loop
Distinct-dedupe_loop out [] d = d
Distinct-dedupe_loop out (x ∷ xs) d = ground (
  arith,
  Distinct-dedupe_loop out xs,
  Distinct-dedupe_loop (out ++ x ∷ []) xs,
  Distinct-append out x,
)

pub contains-dedupe_non_empty :
    (xs : List String) (a : String)
    → contains (dedupe_non_empty xs) a ≡ (contains xs a && not (a == ""))
unfolding dedupe_non_empty contains
contains-dedupe_non_empty xs a =
    ground (arith, contains-sort (dedupe_loop [] xs) a, contains-dedupe_loop [] xs a)

pub Distinct-dedupe_non_empty : (xs : List String) → Distinct (dedupe_non_empty xs)
unfolding dedupe_non_empty
Distinct-dedupe_non_empty xs = Distinct-sort (dedupe_loop [] xs) (Distinct-dedupe_loop [] xs tt)

pub Sorted-dedupe_non_empty : (xs : List String) → Sorted (dedupe_non_empty xs)
unfolding dedupe_non_empty
Sorted-dedupe_non_empty xs = Sorted-sort (dedupe_loop [] xs)

module _ {Key S : Type 0} where
  -- A certificate that comes back is the one built from the parameters, with the authority's seal.
  pub record Issued (i : Issuer Key S) (p : IssueParams Key) (time : ℤ) (s : S)
      (c : Certificate Key) : Type 0 where
    pub key : Key
    pub serial : ℕ
    pub given : p.user_public_key ≡ some key
    pub principals : is_empty (dedupe_non_empty p.principals) ≡ false
    pub named : (p.key_id == "") ≡ false
    pub allocated : (i.serials.next s).0 ≡ some serial
    pub built :
        record c { seal = none }
        ≡ build i p key (dedupe_non_empty p.principals) serial (i.clock time)

  sign-seal :
      (i : Issuer Key S) (b c : Certificate Key)
      → b.seal ≡ none
      → sign i b ≡ ok c
      → record c { seal = none } ≡ b
  unfolding sign
  sign-seal i b c e h = ground (arith, h)

  allocate_and_sign-Issued :
      (i : Issuer Key S) (p : IssueParams Key) (time : ℤ) (key : Key) (s : S) (c : Certificate Key)
      → (allocate_and_sign i p time key s).0 ≡ ok c
      → (n : ℕ) × ((i.serials.next s).0 ≡ some n)
        × (record c { seal = none }
            ≡ build i p key (dedupe_non_empty p.principals) n (i.clock time))
  unfolding allocate_and_sign
  allocate_and_sign-Issued i p time key s c h = elim (Option-cases (i.serials.next s).0) [
    | inl e ↦ absurd (ground arith)
    | inr (n, e) ↦ (
      n,
      e,
      ground
          (arith, sign-seal i (build i p key (dedupe_non_empty p.principals) n (i.clock time)) c),
    )
  ]

  pub issue-Issued :
      (i : Issuer Key S) (p : IssueParams Key) (time : ℤ) (s : S) (c : Certificate Key)
      → (issue i p time s).0 ≡ ok c
      → Issued i p time s c
  unfolding issue
  issue-Issued i p time s c h = elim (Option-cases p.user_public_key) [
    | inl e ↦ absurd (ground arith)
    | inr (key, e) ↦
        let (n, allocated, built) = allocate_and_sign-Issued i p time key s c (ground arith) in
        record {
          key = key;
          serial = n;
          given = e;
          principals = ground arith;
          named = ground arith;
          allocated = allocated;
          built = built;
        }
  ]

  -- The principals of a certificate are the non-empty strings among those asked for, each once, in
  -- sorted order, and there is at least one.
  pub issue_principals :
      (i : Issuer Key S) (p : IssueParams Key) (time : ℤ) (s : S) (c : Certificate Key)
      → (issue i p time s).0 ≡ ok c
      → ((a : String) → contains c.valid_principals a ≡ (contains p.principals a && not (a == "")))
        × Distinct c.valid_principals
        × Sorted c.valid_principals
        × (is_empty c.valid_principals ≡ false)
  unfolding build
  issue_principals i p time s c h =
      let r = issue-Issued i p time s c h in
      rw (ap (λ (x : Certificate Key). x.valid_principals) r.built) (
        contains-dedupe_non_empty p.principals,
        Distinct-dedupe_non_empty p.principals,
        Sorted-dedupe_non_empty p.principals,
        r.principals,
      )
