-- ===== src/Api/Management/Effects.antt =====
-- internal/api/handlers.go against the front door: what a change through the API means for connections.
use ssh_access.Prelude.{
  arith, ◌≡◌, ◌≢◌, refl, sym, ◌∙◌, subst, String, ◌==◌, Option, none, some, List, [], ◌∷◌, map,
  eq_iff, if_elim,
}
use ssh_access.Proxy.Types.{Identity, subject_user}
use ssh_access.Proxy.Authn.{store_key_lookup, authenticate_public_key}
use ssh_access.Proxy.Authn.Barred.{NoneActive, KeptOut, NoneActive-KeptOut}
use ssh_access.Store.Users.{UserRow}
use ssh_access.Store.Grants.{or_else}
use ssh_access.Store.Profiles.{UpdateUserInput, edited_user, update_user}
use ssh_access.Store.Servers.{StoreResult, ok, err, not_found, conflict, failed}
use ssh_access.Api.Db.{
  Db, Handled, answer, refuse, within, write_store_error, write_error, write_json,
}
use ssh_access.Api.UserHandlers.{patch_user, with_users, bad_status}

disabled_ne_active : ◌≢◌ {A = String} "disabled" "active"
disabled_ne_active h = cc ((eq_iff "disabled" "active").1 h)

disabled-or_else :
    (o : Option String) (old : String) → o ≡ some "disabled" → or_else o old ≢ "active"
disabled-or_else none old e now = ground (arith, e)
disabled-or_else (some s) old e now =
    let same : s ≡ "disabled" = ground (arith, e) in disabled_ne_active (sym same ∙ now)

edited-NoneActive :
    (id : String) (b : UpdateUserInput) (users : List UserRow)
    → b.status ≡ some "disabled"
    → NoneActive id (map (edited_user id b) users)
edited-NoneActive id b [] e = tt
edited-NoneActive id b (u ∷ us) e = (
  if_elim (λ (v : UserRow). v.id ≡ id → v.status ≢ "active") (u.id == id)
      (λ _ _. disabled-or_else b.status u.status e)
      (λ differs same. absurd (ground (arith, eq_iff u.id id, differs, same))),
  edited-NoneActive id b us e,
)

update_user-eq-ok :
    (id : String) (b : UpdateUserInput) (rows rows' : List UserRow)
    → b.status ≡ some "disabled"
    → update_user id b rows ≡ ok rows'
    → rows' ≡ map (edited_user id b) rows
unfolding update_user
update_user-eq-ok id b rows rows' e h = ground (arith, e)

answered-KeptOut :
    (id : String) (b : UpdateUserInput) (db : Db) (r : StoreResult (List UserRow))
    → b.status ≡ some "disabled"
    → update_user id b db.accounts.users ≡ r
    → (answer (within r (with_users db)) 200 (("status", "updated") ∷ []) [] db).response.status
      ≡ 200
    → KeptOut id
        (answer (within r (with_users db)) 200 (("status", "updated") ∷ []) [] db).db.accounts
unfolding answer write_store_error write_error write_json
answered-KeptOut id b db (ok rows) e h works =
    NoneActive-KeptOut id (record db.accounts { users = rows })
      (subst (NoneActive id) (sym (update_user-eq-ok id b db.accounts.users rows e h))
        (edited-NoneActive id b db.accounts.users e))
answered-KeptOut id b db (err not_found) e h works = absurd (omega arith)
answered-KeptOut id b db (err conflict) e h works = absurd (omega arith)
answered-KeptOut id b db (err failed) e h works = absurd (omega arith)

refused-400 : (msg : String) (db : Db) → (refuse 400 msg db).response.status ≢ 200
unfolding refuse write_error write_json
refused-400 msg db e = omega arith

disabled-KeptOut :
    (id : String) (b : UpdateUserInput) (db : Db)
    → b.status ≡ some "disabled"
    → (patch_user id (some b) db).response.status ≡ 200
    → KeptOut id (patch_user id (some b) db).db.accounts
unfolding patch_user
disabled-KeptOut id b db e works =
    if_elim (λ (h : Handled). h.response.status ≡ 200 → KeptOut id h.db.accounts)
      (bad_status b.status) (λ bad r. absurd (refused-400 "status must be active or disabled" db r))
      (λ good r. answered-KeptOut id b db _ e refl r) works

-- After a PATCH that disables a user and reports success, whom a key lets in as a user is another user.
pub authenticate-patch_user :
    (id line : String) (b : UpdateUserInput) (db : Db) (i : Identity)
    → b.status ≡ some "disabled"
    → (patch_user id (some b) db).response.status ≡ 200
    → authenticate_public_key (store_key_lookup (patch_user id (some b) db).db.accounts) line
      ≡ some i
    → i.subject ≡ subject_user
    → i.id ≢ id
authenticate-patch_user id line b db i e works h is_user =
    disabled-KeptOut id b db e works line i h is_user
