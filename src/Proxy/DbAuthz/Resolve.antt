-- ===== src/Proxy/DbAuthz/Resolve.antt =====
-- internal/proxy/dbauthz.go: the account that a connection gets.
use ssh_access.Prelude.{
  String, ◌≡◌, ◌≢◌, ◌⊎◌, ◌↔◌, inl, inr, Bool, true, not, ◌&&◌, ◌||◌, List, [], ◌∷◌, arith, ◌==◌,
  eq_iff, eq_refl, contains, Distinct, Bool-cases,
}
use ssh_access.Proxy.Types.{Identity, TargetSpec}
use ssh_access.Proxy.DbAuthz.{account, derive_account, resolve_principal}

-- The requested login asks the broker to derive the account.
abbrev pub IsSelf : Identity → TargetSpec → Type 0
IsSelf id target =
    (target.requested_login ≡ "")
    ⊎ (target.requested_login ≡ "me")
    ⊎ (target.requested_login ≡ id.label)

-- The account is the one named, or the only usable one where the broker has to derive it.
abbrev pub IsChosen : Identity → TargetSpec → (String → Bool) → String → Type 0
IsChosen id target usable c =
    ((target.requested_login ≡ c) × (c ≢ ""))
    ⊎ (IsSelf id target × ((a : String) → usable a ≡ true → a ≡ c))

abbrev asks_self : Identity → TargetSpec → Bool
asks_self id target =
    target.requested_login == ""
    || target.requested_login == "me"
    || target.requested_login == id.label

IsSelf-of_asks :
    (id : Identity) (target : TargetSpec) → asks_self id target ≡ true → IsSelf id target
IsSelf-of_asks id target h = ground (
  arith,
  eq_iff target.requested_login "",
  eq_iff target.requested_login "me",
  eq_iff target.requested_login id.label,
)

contains-single : (c : String) → contains (c ∷ []) c ≡ true
unfolding contains
contains-single c = ground (arith, eq_refl c)

only_of_single : (c a : String) → contains (c ∷ []) a ≡ true → a ≡ c
unfolding contains
only_of_single c a h = ground (arith, eq_iff c a)

derive_account-eq :
    (usable : List String) (c : String) → derive_account usable ≡ account c → usable ≡ c ∷ []
unfolding derive_account
derive_account-eq [] c h = absurd (ground arith)
derive_account-eq (a ∷ []) c h = ground arith
derive_account-eq (a ∷ b ∷ rest) c h = absurd (ground arith)

derive_account_of_only :
    (usable : List String) (c : String)
    → Distinct usable
    → contains usable c ≡ true
    → ((a : String) → contains usable a ≡ true → a ≡ c)
    → derive_account usable ≡ account c
unfolding derive_account contains
derive_account_of_only [] c d h only = absurd (ground arith)
derive_account_of_only (a ∷ []) c d h only = ground (arith, only a, eq_iff a a)
derive_account_of_only (a ∷ b ∷ rest) c d h only =
    absurd (ground (arith, only a, only b, eq_iff a a, eq_iff b b, eq_iff a b, eq_iff b a))

resolve_sound :
    (id : Identity) (target : TargetSpec) (usable : List String) (c : String)
    → resolve_principal id target usable ≡ account c
    → (contains usable c ≡ true) × IsChosen id target (contains usable) c
unfolding resolve_principal
resolve_sound id target usable c h =
    elim (Bool-cases
      (not (target.requested_login == "") && contains usable target.requested_login)) [
        | inl e ↦
            let same : target.requested_login ≡ c = ground arith in
            (ground arith, inl (same, λ p. ground (arith, eq_iff target.requested_login "")))
        | inr e ↦ elim (Bool-cases (asks_self id target)) [
          | inl s ↦
              let single = derive_account-eq usable c (ground arith) in
              (
                rw single (contains-single c),
                inr (IsSelf-of_asks id target s, λ a m. only_of_single c a (rw single at m)),
              )
          | inr s ↦ absurd (ground arith)
        ]
      ]

resolve_complete :
    (id : Identity) (target : TargetSpec) (usable : List String) (c : String)
    → Distinct usable
    → contains usable c ≡ true
    → IsChosen id target (contains usable) c
    → resolve_principal id target usable ≡ account c
unfolding resolve_principal
resolve_complete id target usable c d h (inl (e, named)) =
    ground (arith, eq_iff target.requested_login "")
resolve_complete id target usable c d h (inr (self, only)) = ground (
  arith,
  derive_account_of_only usable c d h only,
  only target.requested_login,
  eq_iff target.requested_login "",
  eq_iff target.requested_login "me",
  eq_iff target.requested_login id.label,
)

-- `resolvePrincipal` gives an account exactly when the account is usable and is either the one that
-- was named or, where the broker has to derive it, the only usable one.
pub resolve_iff :
    (id : Identity) (target : TargetSpec) (usable : List String) (c : String)
    → Distinct usable
    → (resolve_principal id target usable ≡ account c)
      ↔ ((contains usable c ≡ true) × IsChosen id target (contains usable) c)
resolve_iff id target usable c d =
    (resolve_sound id target usable c, λ (h, k). resolve_complete id target usable c d h k)
