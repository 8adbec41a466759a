-- ===== src/Proxy/Authn/Barred.antt =====
-- internal/proxy/dbauth.go over SetUserStatus and DeleteUser: who is kept out.
use ssh_access.Prelude.{
  arith, String, Bool, ◌≡◌, ◌≢◌, ◌⊎◌, inl, inr, some, List, [], ◌∷◌, All, All-Exists, map, filter,
  eq_iff, ap, sym, ◌∙◌, not, if◌then◌else◌, if_elim, Exists-elim, none, subst,
}
use ssh_access.Proxy.Types.{Identity, subject_user}
use ssh_access.Proxy.Authn.{store_key_lookup, authenticate_public_key}
use ssh_access.Proxy.Authn.Owner.{authenticated}
use ssh_access.Store.Users.{UserRow}
use ssh_access.Store.Keys.{Accounts, has_user_id, with_status, set_user_status, delete_user}

-- No active user has the id.
abbrev pub NoneActive : String → List UserRow → Type 0
NoneActive id = All (λ (u : UserRow). u.id ≡ id → u.status ≢ "active")

with_status-NoneActive :
    (id status : String) (users : List UserRow)
    → status ≢ "active"
    → NoneActive id (map (with_status id status) users)
with_status-NoneActive id status [] h = tt
with_status-NoneActive id status (u ∷ us) h =
    ((λ e. ground (arith, eq_iff u.id id)), with_status-NoneActive id status us h)

without-NoneActive :
    (id : String) (users : List UserRow)
    → NoneActive id (filter (λ u. not (has_user_id id u)) users)
without-NoneActive id [] = tt
without-NoneActive id (u ∷ us) =
    let rest = without-NoneActive id us in
    if_elim (NoneActive id) (not (has_user_id id u))
      (λ e. ((λ same. absurd (ground (arith, eq_iff u.id id))), rest)) (λ e. rest)

-- The users of what an update with a guard gives.
users_of :
    (b : Bool) (db db' : Accounts) → (if b then some db else none) ≡ some db' → db.users ≡ db'.users
users_of b db db' e = ground arith

-- No key lets in the user of the id.
abbrev pub KeptOut : String → Accounts → Type 0
KeptOut id db =
    (line : String) (i : Identity)
    → authenticate_public_key (store_key_lookup db) line ≡ some i
    → i.subject ≡ subject_user
    → i.id ≢ id

pub NoneActive-KeptOut : (id : String) (db : Accounts) → NoneActive id db.users → KeptOut id db
NoneActive-KeptOut id db none_active line i h is_user same = elim (authenticated db line i h) [
  | inl o ↦
      Exists-elim _ db.user_public_keys
        (λ k p.
          let (u, barred, at) = All-Exists _ _ db.users none_active p.1 in
          barred (sym (ap (λ (j : Identity). j.id) at.1.1) ∙ same) at.1.0)
        o
  | inr o ↦
      Exists-elim _ db.service_accounts
        (λ a p.
          let clash : "service_account" ≡ "user" =
            sym (ap (λ (j : Identity). j.subject) p.2) ∙ is_user in
          absurd (cc ((eq_iff "service_account" "user").1 clash)))
        o
]

without_access :
    (id status : String) (db db' : Accounts)
    → ((status ≢ "active") × (set_user_status id status db ≡ some db'))
      ⊎ (delete_user id db ≡ some db')
    → KeptOut id db'
unfolding set_user_status delete_user
without_access id status db db' (inl (h, e)) =
    NoneActive-KeptOut id db'
      (subst (NoneActive id) (users_of _ _ db' e) (with_status-NoneActive id status db.users h))
without_access id status db db' (inr e) =
    NoneActive-KeptOut id db'
      (subst (NoneActive id) (users_of _ _ db' e) (without-NoneActive id db.users))

-- After a user is set to another status than active, or is deleted, whom a key lets in as a user is
-- another user.
pub authenticate-barred :
    (id status line : String) (db db' : Accounts) (i : Identity)
    → ((status ≢ "active") × (set_user_status id status db ≡ some db'))
      ⊎ (delete_user id db ≡ some db')
    → authenticate_public_key (store_key_lookup db') line ≡ some i
    → i.subject ≡ subject_user
    → i.id ≢ id
authenticate-barred id status line db db' i barred h is_user =
    without_access id status db db' barred line i h is_user
