-- ===== src/Ca/Issuer/Outcomes.antt =====
-- internal/ca/issuer.go: which requests are refused, and which of them use up a serial number.
use ssh_access.Prelude.{
  String, ◌≡◌, refl, sym, ap, ◌∙◌, Bool, true, false, not, ◌&&◌, some, List, [], ◌∷◌, arith, ◌==◌,
  eq_iff, contains, any, is_empty, is_some, if◌then◌else◌, Bool-cases, Option-cases, inl, inr,
}
use ssh_access.Prelude.Int.{ℤ}
use ssh_access.Ca.Issuer.{
  Issuer, IssueParams, Certificate, Result, ok, err, issue, sign, allocate_and_sign,
  dedupe_non_empty, build,
}
use ssh_access.Ca.Issuer.Principals.{issue-Issued, contains-dedupe_non_empty}

-- Some principal is not empty.
abbrev pub has_principal : List String → Bool
has_principal = any λ a. not (a == "")

contains_of_has :
    (xs : List String)
    → has_principal xs ≡ true
    → (a : String) × (contains xs a ≡ true) × ((a == "") ≡ false)
unfolding contains
contains_of_has [] h = absurd (ground arith)
contains_of_has (x ∷ xs) h = elim (Bool-cases (x == "")) [
  | inl e ↦ let (a, inside, named) = contains_of_has xs (ground arith) in (a, ground arith, named)
  | inr e ↦ (x, ground (arith, eq_iff x x), e)
]

has_of_contains :
    (xs : List String) (a : String)
    → contains xs a ≡ true
    → (a == "") ≡ false
    → has_principal xs ≡ true
unfolding contains
has_of_contains [] a h k = ground arith
has_of_contains (x ∷ xs) a h k = ground (arith, has_of_contains xs a, eq_iff x a)

not-empty_of_contains : (xs : List String) (a : String) → contains xs a ≡ true → is_empty xs ≡ false
unfolding contains
not-empty_of_contains [] a h = ground arith
not-empty_of_contains (x ∷ xs) a h = refl

contains_of_not-empty :
    (xs : List String) → is_empty xs ≡ false → (a : String) × (contains xs a ≡ true)
unfolding contains
contains_of_not-empty [] h = absurd (ground arith)
contains_of_not-empty (x ∷ xs) h = (x, ground (arith, eq_iff x x))

is_empty-dedupe_non_empty :
    (xs : List String) → is_empty (dedupe_non_empty xs) ≡ not (has_principal xs)
is_empty-dedupe_non_empty xs = elim (Bool-cases (has_principal xs)) [
  | inl h ↦
      let (a, inside, named) = contains_of_has xs h in
      ground (arith, not-empty_of_contains (dedupe_non_empty xs) a, contains-dedupe_non_empty xs a)
  | inr h ↦ elim (Bool-cases (is_empty (dedupe_non_empty xs))) [
    | inl e ↦ ground arith
    | inr e ↦
        let (a, inside) = contains_of_not-empty (dedupe_non_empty xs) e in
        ground (arith, contains-dedupe_non_empty xs a, has_of_contains xs a)
  ]
]

abbrev pub is_ok {ℓ} : {A : Type ℓ} → Result A → Bool
is_ok (ok a) = true
is_ok (err e) = false

-- A request that names a key, a principal and a key id.
abbrev pub is_valid : {Key : Type 0} → IssueParams Key → Bool
is_valid p = is_some p.user_public_key && has_principal p.principals && not (p.key_id == "")

module _ {Key S : Type 0} where
  sign-is_ok :
      (i : Issuer Key S) (c : Certificate Key)
      → is_some (i.authority.sign_certificate c) ≡ true
      → is_ok (sign i c) ≡ true
  unfolding sign
  sign-is_ok i c h = ground arith

  allocate_outcome :
      (i : Issuer Key S) (p : IssueParams Key) (time : ℤ) (key : Key) (s : S)
      → ((c : Certificate Key) → is_some (i.authority.sign_certificate c) ≡ true)
      → is_ok (allocate_and_sign i p time key s).0 ≡ is_some (i.serials.next s).0
  unfolding allocate_and_sign
  allocate_outcome i p time key s signs = elim (Option-cases (i.serials.next s).0) [
    | inl e ↦ rw (e, allocate_and_sign) refl
    | inr (n, e) ↦ rw (e, allocate_and_sign) (sign-is_ok i _ (signs _))
  ]

  pub issue_state :
      (i : Issuer Key S) (p : IssueParams Key) (time : ℤ) (s : S)
      → (issue i p time s).1 ≡ (if is_valid p then (i.serials.next s).1 else s)
  unfolding issue
  issue_state i p time s = elim (Option-cases p.user_public_key) [
    | inl e ↦ ground arith
    | inr (key, e) ↦ ground (arith, is_empty-dedupe_non_empty p.principals)
  ]

  pub issue_serial :
      (i : Issuer Key S) (p : IssueParams Key) (time : ℤ) (s : S) (c : Certificate Key)
      → (issue i p time s).0 ≡ ok c
      → ((i.serials.next s).0 ≡ some c.serial) × ((issue i p time s).1 ≡ (i.serials.next s).1)
  unfolding build
  issue_serial i p time s c h =
      let r = issue-Issued i p time s c h in
      (
        r.allocated ∙ ap (λ (x : Certificate Key). some x.serial) (sym r.built),
        ground (
          arith,
          issue_state i p time s,
          r.given,
          r.named,
          r.principals,
          is_empty-dedupe_non_empty p.principals,
        ),
      )

  -- With an authority that signs whatever it is given, a request succeeds exactly when it names a
  -- key, a principal and a key id and a serial number is available; and the
  -- allocator is asked for one exactly when the request names these three.
  pub issue_outcome :
      (i : Issuer Key S) (p : IssueParams Key) (time : ℤ) (s : S)
      → ((c : Certificate Key) → is_some (i.authority.sign_certificate c) ≡ true)
      → (is_ok (issue i p time s).0 ≡ (is_valid p && is_some (i.serials.next s).0))
        × ((issue i p time s).1 ≡ (if is_valid p then (i.serials.next s).1 else s))
  unfolding issue
  issue_outcome i p time s signs = elim (Option-cases p.user_public_key) [
    | inl e ↦ ground (arith, issue_state i p time s)
    | inr (key, e) ↦ ground (
      arith,
      issue_state i p time s,
      is_empty-dedupe_non_empty p.principals,
      allocate_outcome i p time key s signs,
    )
  ]
