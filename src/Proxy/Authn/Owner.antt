-- ===== src/Proxy/Authn/Owner.antt =====
-- internal/proxy/dbauth.go and server.go over internal/store/repositories.go: whose key lets whom in.
use ssh_access.Prelude.{
  arith, refl, find-any, String, Bool, true, false, All, ◌==◌, ◌≡◌, ◌↔◌, ◌⊎◌, inl, inr, none, some,
  List, [], ◌∷◌, Exists, find-Exists, Exists-mono, find_of_Exists, DistinctOn, find, Option-cases,
  Bool-cases, eq_iff, any, subst, sym, ap, any_of_Exists, differs, ◌∙◌, Bool-cases,
}
use ssh_access.Proxy.Types.{Identity}
use ssh_access.Proxy.Authn.{store_key_lookup, authenticate_public_key}
use ssh_access.Store.Users.{UserRow}
use ssh_access.Store.Keys.{
  UserKey, ServiceAccount, Accounts, user_of_key, authn_by_key, has_user_id, has_key,
}

abbrev pub user_identity : UserRow → Identity
user_identity u = record { subject = "user"; id = u.id; label = u.username }

abbrev pub service_identity : ServiceAccount → Identity
service_identity a = record { subject = "service_account"; id = a.id; label = a.name }

-- A user who has registered the key.
abbrev pub Registered : String → Accounts → (UserRow → Type 0) → Type 0
Registered line db P =
    Exists
      (λ (k : UserKey). (k.public_key ≡ line) × Exists (λ u. (u.id ≡ k.user_id) × P u) db.users)
      db.user_public_keys

abbrev pub IsActiveAs : Identity → UserRow → Type 0
IsActiveAs i u = (u.status ≡ "active") × (i ≡ user_identity u)

abbrev pub UserOwns : String → Accounts → Identity → Type 0
UserOwns line db i = Registered line db (IsActiveAs i)

abbrev pub ServiceOwns : String → Accounts → Identity → Type 0
ServiceOwns line db i =
    Exists
      (λ (a : ServiceAccount).
        (a.public_key ≡ line) × (a.status ≡ "active") × (i ≡ service_identity a))
      db.service_accounts

user_of_key-Exists :
    (line : String) (ks : List UserKey) (users : List UserRow) (u : UserRow)
    → user_of_key line ks users ≡ some u
    → Exists
        (λ (k : UserKey).
          (k.public_key ≡ line) × Exists (λ (v : UserRow). (v.id ≡ k.user_id) × (v ≡ u)) users)
        ks
unfolding user_of_key
user_of_key-Exists line [] users u h = absurd (ground arith)
user_of_key-Exists line (k ∷ ks) users u h = elim (Bool-cases (k.public_key == line)) [
  | inr e ↦ inr (user_of_key-Exists line ks users u (ground arith))
  | inl e ↦ elim (Option-cases (find (has_user_id k.user_id) users)) [
    | inl missing ↦ inr (user_of_key-Exists line ks users u (ground arith))
    | inr (v, found) ↦
        let same : v ≡ u = ground arith in
        inl (
          (eq_iff _ _).0 e,
          Exists-mono _ _ (λ w p. ((eq_iff _ _).0 p.1, p.0 ∙ same)) users
              (find-Exists _ users v found),
        )
  ]
]

user_of_key-Registered :
    (line : String) (db : Accounts) (u : UserRow)
    → user_of_key line db.user_public_keys db.users ≡ some u
    → Registered line db (λ v. v ≡ u)
user_of_key-Registered line db u h = user_of_key-Exists line db.user_public_keys db.users u h

-- Some user has registered the key.
abbrev pub registered : String → List UserKey → Bool
registered line ks = any (λ (k : UserKey). k.public_key == line) ks

-- No user has registered the key, and the first service account that has it is active.
abbrev pub ServiceFirst : String → Accounts → Identity → Type 0
ServiceFirst line db i =
    (registered line db.user_public_keys ≡ false)
    × (a : ServiceAccount) × (find (has_key line) db.service_accounts ≡ some a)
    × (a.status ≡ "active")
    × (i ≡ service_identity a)

-- The constraints of the schema: a key is registered once, for a user who is there, and the ids of users
-- differ.
pub record IsConsistent (db : Accounts) : Type 0 where
  pub owned : All (λ (k : UserKey). any (has_user_id k.user_id) db.users ≡ true) db.user_public_keys
  pub keys : DistinctOn (λ (k : UserKey). k.public_key) db.user_public_keys
  pub ids : DistinctOn (λ (u : UserRow). u.id) db.users

user_of_key-find :
    (line : String) (P : UserRow → Type 0) (ks : List UserKey) (users : List UserRow)
    → DistinctOn (λ (k : UserKey). k.public_key) ks
    → DistinctOn (λ (u : UserRow). u.id) users
    → Exists
        (λ (k : UserKey).
          (k.public_key ≡ line) × Exists (λ (v : UserRow). (v.id ≡ k.user_id) × P v) users)
        ks
    → (u : UserRow) × (user_of_key line ks users ≡ some u) × P u
unfolding user_of_key
user_of_key-find line P [] users dk du e = elim e [ ]
user_of_key-find line P (k ∷ ks) users dk du (inl (e, found)) =
    let (u, at, p) = find_of_Exists (λ (v : UserRow). v.id) k.user_id P users du found in
    (u, ground (arith, eq_iff k.public_key line), p)
user_of_key-find line P (k ∷ ks) users dk du (inr e) =
    let (u, at, p) = user_of_key-find line P ks users dk.1 du e in
    let later =
      any_of_Exists (λ (j : UserKey). j.public_key == line) _
        (λ j h. (eq_iff j.public_key line).1 h.0) ks e in
    (
      u,
      (elim (Bool-cases (k.public_key == line)) [
        | inl same ↦ absurd (
            differs
              (subst (λ z. any (λ (j : UserKey). j.public_key == z) ks ≡ true)
                (sym ((eq_iff k.public_key line).0 same)) later)
              dk.0)
        | inr other ↦ ground arith
      ]),
      p,
    )

unowned-registered :
    (line : String) (ks : List UserKey) (users : List UserRow)
    → All (λ (k : UserKey). any (has_user_id k.user_id) users ≡ true) ks
    → user_of_key line ks users ≡ none
    → registered line ks ≡ false
unfolding user_of_key
unowned-registered line [] users o h = refl
unowned-registered line (k ∷ ks) users (there, o) h =
    elim (Option-cases (find (has_user_id k.user_id) users)) [
      | inl missing ↦ absurd (differs there (find-any (has_user_id k.user_id) users missing))
      | inr (u, found) ↦ ground (arith, unowned-registered line ks users o)
    ]

registered-user_of_key :
    (line : String) (ks : List UserKey) (users : List UserRow)
    → registered line ks ≡ false
    → user_of_key line ks users ≡ none
unfolding user_of_key
registered-user_of_key line [] users h = refl
registered-user_of_key line (k ∷ ks) users h = ground (arith, registered-user_of_key line ks users)

module _ (db : Accounts) (line : String) (i : Identity) where
  pub user_value :
      (u : UserRow)
      → user_of_key line db.user_public_keys db.users ≡ some u
      → (authenticate_public_key (store_key_lookup db) line ≡ some i) ↔ IsActiveAs i u
  unfolding authenticate_public_key store_key_lookup authn_by_key
  user_value u e = (
    (λ h. ground (arith, eq_iff u.status "active")),
    (λ h. ground (arith, eq_iff u.status "active")),
  )

  service_value :
      (a : ServiceAccount)
      → user_of_key line db.user_public_keys db.users ≡ none
      → find (has_key line) db.service_accounts ≡ some a
      → (authenticate_public_key (store_key_lookup db) line ≡ some i)
        ↔ ((a.status ≡ "active") × (i ≡ service_identity a))
  unfolding authenticate_public_key store_key_lookup authn_by_key
  service_value a e f = (
    (λ h. ground (arith, eq_iff a.status "active")),
    (λ h. ground (arith, eq_iff a.status "active")),
  )

  no_value :
      user_of_key line db.user_public_keys db.users ≡ none
      → find (has_key line) db.service_accounts ≡ none
      → authenticate_public_key (store_key_lookup db) line ≡ none
  unfolding authenticate_public_key store_key_lookup authn_by_key
  no_value e f = ground arith

  service_owner :
      user_of_key line db.user_public_keys db.users ≡ none
      → authenticate_public_key (store_key_lookup db) line ≡ some i
      → ServiceOwns line db i
  service_owner e h = elim (Option-cases (find (has_key line) db.service_accounts)) [
    | inl f ↦ absurd (ground (arith, no_value e f))
    | inr (a, f) ↦
        let (active, same) = (service_value a e f).0 h in
        Exists-mono _ _
          (λ b p. (
            (eq_iff b.public_key line).0 p.1,
            ap (λ (x : ServiceAccount). x.status) p.0 ∙ active,
            same ∙ sym (ap service_identity p.0),
          ))
          db.service_accounts (find-Exists _ db.service_accounts a f)
  ]

  user_owner :
      (u : UserRow)
      → user_of_key line db.user_public_keys db.users ≡ some u
      → authenticate_public_key (store_key_lookup db) line ≡ some i
      → UserOwns line db i
  user_owner u e h =
      let is : IsActiveAs i u = (user_value u e).0 h in
      Exists-mono _ _
        (λ k p.
          (p.0, Exists-mono _ _ (λ v q. (q.0, subst (IsActiveAs i) (sym q.1) is)) db.users p.1))
        db.user_public_keys (user_of_key-Registered line db u e)

  pub authenticated :
      authenticate_public_key (store_key_lookup db) line ≡ some i
      → UserOwns line db i ⊎ ServiceOwns line db i
  authenticated h = elim (Option-cases (user_of_key line db.user_public_keys db.users)) [
    | inr (u, e) ↦ inl (user_owner u e h)
    | inl e ↦ inr (service_owner e h)
  ]

  service_first :
      IsConsistent db
      → user_of_key line db.user_public_keys db.users ≡ none
      → authenticate_public_key (store_key_lookup db) line ≡ some i
      → ServiceFirst line db i
  service_first c e h = elim (Option-cases (find (has_key line) db.service_accounts)) [
    | inl f ↦ absurd (ground (arith, no_value e f))
    | inr (a, f) ↦
        let (active, same) = (service_value a e f).0 h in
        (unowned-registered line db.user_public_keys db.users c.owned e, a, f, active, same)
  ]

  owner :
      IsConsistent db
      → authenticate_public_key (store_key_lookup db) line ≡ some i
      → UserOwns line db i ⊎ ServiceFirst line db i
  owner c h = elim (Option-cases (user_of_key line db.user_public_keys db.users)) [
    | inr (u, e) ↦ inl (user_owner u e h)
    | inl e ↦ inr (service_first c e h)
  ]

  -- A key lets in exactly its owner, where that account is active: the user who has registered it or,
  -- where no user has, the first service account that has it. Keys are registered once, for users who
  -- are there, and the ids of users differ.
  pub authenticate_iff :
      IsConsistent db
      → (authenticate_public_key (store_key_lookup db) line ≡ some i)
        ↔ (UserOwns line db i ⊎ ServiceFirst line db i)
  authenticate_iff c = (
    owner c,
    λ o. elim o [
      | inl owns ↦
          let (u, e, is) =
            user_of_key-find line (IsActiveAs i) db.user_public_keys db.users c.keys c.ids owns in
          (user_value u e).1 is
      | inr (free, a, f, active, same) ↦
          (service_value a (registered-user_of_key line db.user_public_keys db.users free) f).1
            (active, same)
    ],
  )
