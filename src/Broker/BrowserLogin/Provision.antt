-- ===== src/Broker/BrowserLogin/Provision.antt =====
-- cmd/broker/browserlogin.go: whom a subject becomes, and what a new user may do.
use mathlib.Core.Path.{subst}
use ssh_access.Prelude.{
  String, Bool, true, false, ◌==◌, eq_iff, eq_refl, ◌&&◌, ◌≡◌, ◌≢◌, refl, ap, sym, ◌∙◌, Option,
  none, some, List, [], ◌∷◌, any, find, arith, Option-cases, Bool-cases, inl, inr, contains,
}
use ssh_access.Proxy.Types.{Identity, TargetSpec, Decision, allow, subject_user}
use ssh_access.Proxy.DbAuthz.{authorize}
use ssh_access.Store.Grants.{GrantRow}
use ssh_access.Store.Users.{
  UserRow, SsoUser, is_subject, sso_option, get_user_by_subject, create_user, jit_create_user,
}
use ssh_access.Store.Servers.{Members, ServerRow}
use ssh_access.Broker.Authz.{Directory, store_authz_backend}
use ssh_access.Broker.Authz.Granted.{names_subject, names_server, is_member, authorize-granted}
use ssh_access.Broker.BrowserLogin.{resolve, identity_of, resolve_found}

-- The identity is that of an active user of the table whose email or Entra id is the subject.
pub record IsUserOf (rows : List UserRow) (subject : String) (ident : Identity) : Type 0 where
  pub user : UserRow
  pub found : find (is_subject subject) rows ≡ some user
  pub active : user.status ≡ "active"
  pub is : ident ≡ record { subject = subject_user; id = user.id; label = user.username }

identity-IsUserOf :
    (rows : List UserRow) (subject : String) (ident : Identity)
    → identity_of (get_user_by_subject subject rows) ≡ some ident
    → IsUserOf rows subject ident
unfolding get_user_by_subject
identity-IsUserOf rows subject ident h = elim (Option-cases (find (is_subject subject) rows)) [
  | inl e ↦ absurd (ground arith)
  | inr (u, e) ↦ elim (Bool-cases (u.status == "active")) [
    | inl k ↦ record {
      user = u;
      found = e;
      active = (eq_iff u.status "active").0 k;
      is = ground arith;
    }
    | inr k ↦ absurd (ground arith)
  ]
]

module _ (id subject : String) (rows : List UserRow) (ident : Identity) where
  found-IsUserOf :
      (jit : Bool) (o : Option SsoUser)
      → get_user_by_subject subject rows ≡ o
      → (resolve_found jit id subject rows o).0 ≡ some ident
      → IsUserOf (resolve_found jit id subject rows o).1 subject ident
  unfolding jit_create_user
  found-IsUserOf jit (some u) e h = identity-IsUserOf rows subject ident (ap identity_of e ∙ h)
  found-IsUserOf true none e h =
      identity-IsUserOf (jit_create_user id subject rows).1 subject ident h
  found-IsUserOf false none e h = absurd (ground arith)

found_same :
    (id subject : String) (rows : List UserRow) (o : Option SsoUser)
    → (resolve_found false id subject rows o).1 ≡ rows
found_same id subject rows none = refl
found_same id subject rows (some u) = refl

found_kept :
    (jit : Bool) (id subject : String) (rows : List UserRow) (o : Option UserRow)
    → o ≢ none
    → (resolve_found jit id subject rows (sso_option o)).1 ≡ rows
found_kept jit id subject rows none h = absurd (h refl)
found_kept jit id subject rows (some u) h = refl

-- A subject is let in only as an active user whose email or Entra id it is, in the table as Resolve leaves
-- it; a table that has a user for the subject, or any table where provisioning is off, is
-- left as it is.
pub resolve-IsUserOf :
    (jit : Bool) (id subject : String) (rows : List UserRow) (ident : Identity)
    → (resolve jit id subject rows).0 ≡ some ident
    → IsUserOf (resolve jit id subject rows).1 subject ident
      × ((find (is_subject subject) rows ≢ none) → (resolve jit id subject rows).1 ≡ rows)
      × (jit ≡ false → (resolve jit id subject rows).1 ≡ rows)
unfolding resolve get_user_by_subject
resolve-IsUserOf jit id subject rows ident h = (
  found-IsUserOf id subject rows ident jit (get_user_by_subject subject rows) refl h,
  λ k. found_kept jit id subject rows (find (is_subject subject) rows) k,
  λ e.
      ap (λ b. (resolve b id subject rows).1) e
      ∙ found_same id subject rows (get_user_by_subject subject rows),
)

-- Nothing in the directory mentions the user.
pub record IsNew (id : String) (db : Directory) : Type 0 where
  pub no_grant :
      any (λ (g : GrantRow). g.subject_id == id && g.subject_type == "user") db.grants ≡ false
  pub no_membership : any (λ (m : String × String). m.1 == id) db.user_group_members ≡ false

not_member :
    (id group : String) (ms : Members)
    → any (λ (m : String × String). m.1 == id) ms ≡ false
    → is_member group id ms ≡ false
not_member id group [] h = refl
not_member id group (m ∷ ms) h = ground (arith, not_member id group ms)

not_named :
    (id label : String) (db : Directory) (server : ServerRow) (c : String) (gs : List GrantRow)
    → any (λ (m : String × String). m.1 == id) db.user_group_members ≡ false
    → any (λ (g : GrantRow). g.subject_id == id && g.subject_type == "user") gs ≡ false
    → any
        (λ g.
          names_subject (record { subject = subject_user; id = id; label = label }) db g
          && names_server server db g
          && contains g.principals c)
        gs
      ≡ false
not_named id label db server c [] hm hg = refl
not_named id label db server c (g ∷ gs) hm hg = ground (
  arith,
  not_member id g.subject_id db.user_group_members hm,
  not_named id label db server c gs hm,
)

new_user :
    (id subject : String) (rows : List UserRow) (u : UserRow)
    → find (is_subject subject) rows ≡ none
    → find (is_subject subject) (jit_create_user id subject rows).1 ≡ some u
    → u.id ≡ id
unfolding jit_create_user create_user
new_user id subject rows u none_before found = ground (arith, none_before, eq_refl subject)

-- A user who is provisioned because no user has the subject is let in to no account of any target, as
-- long as neither a grant nor a group mentions the new id.
pub resolve-authorize :
    (id subject : String) (rows : List UserRow) (ident : Identity) (db : Directory)
    (target : TargetSpec) (d : Decision)
    → find (is_subject subject) rows ≡ none
    → (resolve true id subject rows).0 ≡ some ident
    → IsNew id db
    → authorize (store_authz_backend db) ident target ≢ allow d
unfolding resolve get_user_by_subject
resolve-authorize id subject rows ident db target d unknown h new allowed =
    let u =
      found-IsUserOf id subject rows ident true (sso_option (find (is_subject subject) rows)) refl
        h in
    let same : find (is_subject subject) (jit_create_user id subject rows).1 ≡ some u.user =
      ap (λ o. find (is_subject subject) (resolve_found true id subject rows (sso_option o)).1)
        (sym unknown)
      ∙ u.found in
    let own : u.user.id ≡ id = new_user id subject rows u.user unknown same in
    let ident_is : ident ≡ record { subject = subject_user; id = id; label = u.user.username } =
      u.is ∙ ap (λ i. record { subject = subject_user; id = i; label = u.user.username }) own in
    let (server, found, some_grant, listed) =
      authorize-granted db _ target d
        (subst (λ i. authorize (store_authz_backend db) i target ≡ allow d) ident_is allowed) in
    ground (
      arith,
      some_grant,
      not_named id u.user.username db server d.login db.grants new.no_membership new.no_grant,
    )
