-- ===== src/Api/Management/Granted.antt =====
-- internal/api/handlers.go against the front door: what a grant that was created through the API gives.
use ssh_access.Prelude.{
  arith, ℕ, ◌≤◌, ◌<◌, ◌≡◌, ◌≢◌, refl, sym, ap, ◌∙◌, subst, String, Bool, true, ◌&&◌, ◌||◌, ◌==◌,
  Option, none, some, [], ◌∷◌, contains, is_empty, if_elim,
}
use ssh_access.Prelude.Int.{ℤ, pos}
use ssh_access.Proxy.Types.{Identity, Decision, allow}
use ssh_access.Proxy.DbAuthz.{authorize}
use ssh_access.Store.Grants.{create_grant, ttl_seconds}
use ssh_access.Store.Servers.{StoreResult, ServerRow}
use ssh_access.Broker.Authz.{Directory, get_server_by_hostname, store_authz_backend}
use ssh_access.Broker.Authz.Granted.{is_member}
use ssh_access.Broker.Authz.Created.{Honours, created-Honours, created-authorize, decision}
use ssh_access.Api.Db.{
  Db, ApiCalls, Handled, refuse, answer, write_error, write_store_error, write_json,
}
use ssh_access.Api.GrantHandlers.{
  CreateGrantBody, seconds_duration, grant_input, casts, invalid_review_date, lacks_fields,
  reviewed_grant, resolve_review_by, create_grant_handler,
}
use ssh_access.Api.GrantHandlers.Seconds.{ttl_seconds-seconds_duration}

-- The tables that the front door reads.
abbrev pub directory_of : Db → Directory
directory_of db = record {
  servers = db.servers;
  user_group_members = db.user_group_members;
  server_group_members = db.server_group_members;
  grants = db.grants;
}

-- The body names the subject or a group of the user.
abbrev pub concerns_subject : Identity → Db → CreateGrantBody → Bool
concerns_subject i db b =
    (b.subject_type == i.subject && b.subject_id == i.id)
    || (b.subject_type == "user_group"
        && (i.subject == "user" && is_member b.subject_id i.id db.user_group_members))

-- The body names the server or a group of it.
abbrev pub concerns_server : ServerRow → Db → CreateGrantBody → Bool
concerns_server server db b =
    (b.target_type == "server" && b.target_id == server.id)
    || (b.target_type == "server_group" && is_member b.target_id server.id db.server_group_members)

refused-not_201 : (msg : String) (db : Db) → (refuse 400 msg db).response.status ≢ 201
unfolding refuse write_error write_json
refused-not_201 msg db e = omega arith

module _ (calls : ApiCalls) (b : CreateGrantBody) (db : Db) where
  abbrev with_grant : ℕ → Db
  with_grant t = record db { grants = create_grant calls.new_id (grant_input b t) db.grants }

  inserted :
      (t : ℕ)
      → (reviewed_grant calls b db (some t)).response.status ≡ 201
      → (reviewed_grant calls b db (some t)).db ≡ with_grant t
  unfolding answer write_store_error write_error write_json
  inserted t =
      if_elim
        (λ (r : StoreResult Db).
          (answer r 201 (("id", calls.new_id) ∷ []) [] db).response.status ≡ 201
          → (answer r 201 (("id", calls.new_id) ∷ []) [] db).db ≡ with_grant t)
        (casts (grant_input b t)) (λ _ _. refl) (λ _ e. absurd (omega arith))

  reviewed :
      (o : Option ℕ)
      → (reviewed_grant calls b db o).response.status ≡ 201
      → (t : ℕ) × ((reviewed_grant calls b db o).db ≡ with_grant t)
  reviewed none e = absurd (refused-not_201 invalid_review_date db e)
  reviewed (some t) e = (t, inserted t e)

  created :
      (create_grant_handler calls (some b) db).response.status ≡ 201
      → (t : ℕ) × ((create_grant_handler calls (some b) db).db ≡ with_grant t)
  unfolding create_grant_handler
  created =
      if_elim (λ (h : Handled). h.response.status ≡ 201 → (t : ℕ) × (h.db ≡ with_grant t))
        (lacks_fields b)
        (λ _ e. absurd (refused-not_201 "subject_id, target_id, and principals are required" db e))
        (λ _. reviewed (resolve_review_by calls b.review_by))

module _ (calls : ApiCalls) (b : CreateGrantBody) (db : Db) (i : Identity) (server : ServerRow)
    (host c : String) (n : ℕ) where
  -- A grant that was created through the API lets in whom it names, on the servers that it names, as each
  -- of its accounts that the allowlist of the server (where there is one) has: with what the body asks
  -- for, for at least its seconds, which are at most those that an int64 holds in nanoseconds.
  pub authorize-create_grant :
      (create_grant_handler calls (some b) db).response.status ≡ 201
      → concerns_subject i db b ≡ true
      → concerns_server server db b ≡ true
      → contains b.principals c ≡ true
      → b.max_ttl_seconds ≡ pos n
      → 0 < n
      → n ≤ 9223372036
      → get_server_by_hostname host db.servers ≡ some server
      → c ≢ ""
      → (is_empty server.allowed_principals || contains server.allowed_principals c) ≡ true
      → (d : Decision) × (authorize
            (store_authz_backend (directory_of (create_grant_handler calls (some b) db).db))
            i
            (record { requested_login = c; host = host })
          ≡ allow d)
        × Honours b.shell b.exec b.sftp b.recording n server c d
  authorize-create_grant works subject target account asked positive bound at nonempty listed =
      let seconds =
        ap (λ (s : ℤ). ttl_seconds (seconds_duration s)) asked
        ∙ ttl_seconds-seconds_duration n positive bound in
      let (t, left) = created calls b db works in
      let input = grant_input b t in
      let d = decision calls.new_id input (directory_of db) i server host c in
      let allowed =
        created-authorize calls.new_id input (directory_of db) i server host c subject target
          account at nonempty listed in
      let honours =
        created-Honours calls.new_id input (directory_of db) i server host c subject target
          account in
      subst
        (λ (x : Db).
          (d : Decision) × (authorize (store_authz_backend (directory_of x)) i
              (record { requested_login = c; host = host })
            ≡ allow d)
          × Honours b.shell b.exec b.sftp b.recording n server c d)
        (sym left)
        (
          d,
          allowed,
          subst (λ (m : ℕ). Honours b.shell b.exec b.sftp b.recording m server c d) seconds honours,
        )
