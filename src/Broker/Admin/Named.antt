-- ===== src/Broker/Admin/Named.antt =====
-- cmd/broker/admin.go against the front door: a grant that was added by names.
use ssh_access.Prelude.{
  arith, ℕ, ◌≡◌, ◌≢◌, refl, ap, ◌∙◌, subst, String, true, not, ◌||◌, ◌==◌, Option, none, some, find,
  contains, is_empty, eq_iff, eq_refl,
}
use ssh_access.Prelude.Bytes.{◌>>=◌}
use ssh_access.Proxy.Types.{Decision, allow}
use ssh_access.Proxy.Authn.Owner.{user_identity}
use ssh_access.Proxy.DbAuthz.{authorize}
use ssh_access.Store.Users.{UserRow}
use ssh_access.Store.Grants.{create_grant, ttl_seconds}
use ssh_access.Store.Servers.{ServerRow}
use ssh_access.Broker.Authz.{get_server_by_hostname, store_authz_backend}
use ssh_access.Broker.Authz.Created.{Honours, created-Honours, created-authorize, decision}
use ssh_access.Api.Db.{Db, ApiCalls}
use ssh_access.Api.GrantHandlers.{casts}
use ssh_access.Api.Management.Granted.{directory_of}
use ssh_access.Broker.Admin.{
  must, user_id_by_username, server_id_by_hostname, csv, resolve_subject, resolve_target,
  review_date,
}
use ssh_access.Broker.Admin.Policy.{GrantFlags, flags_input, cmd_add_grant}

some_step :
    {A B : Type 0} (m : Option A) (k : A → Option B) {b : B}
    → (m >>= k) ≡ some b
    → (a : A) × (m ≡ some a) × (k a ≡ some b)
some_step none k h = absurd (ground arith)
some_step (some a) k h = (a, refl, h)

module _ (calls : ApiCalls) (f : GrantFlags) (db : Db) where
  abbrev pub with_grant : String × String → String × String → ℕ → Db
  with_grant subject target review = record db {
    grants = create_grant calls.new_id (flags_input f subject target review) db.grants;
  }

  added :
      (db' : Db)
      → cmd_add_grant calls f db ≡ some db'
      → (subject : String × String) × (target : String × String) × (review : ℕ) × (resolve_subject
            f.subject_user f.subject_group db
          ≡ some subject)
        × (resolve_target f.server f.server_group db ≡ some target)
        × (with_grant subject target review ≡ db')
  unfolding cmd_add_grant
  added db' h =
      let (subject, found, h₁) = some_step _ _ h in
      let (target, reached, h₂) = some_step _ _ h₁ in
      let (_, _, h₃) = some_step (must (not (is_empty (csv f.principals)))) _ h₂ in
      let (review, _, h₄) = some_step (review_date calls f.review_by) _ h₃ in
      let (_, _, h₅) = some_step (must (casts (flags_input f subject target review))) _ h₄ in
      (subject, target, review, found, reached, ground arith)

  subject_named :
      (user : UserRow) (subject : String × String)
      → f.subject_user ≢ ""
      → find (λ (u : UserRow). u.username == f.subject_user) db.accounts.users ≡ some user
      → resolve_subject f.subject_user f.subject_group db ≡ some subject
      → ("user", user.id) ≡ subject
  unfolding resolve_subject user_id_by_username
  subject_named user subject named found h = ground (arith, found, eq_iff f.subject_user "")

  target_named :
      (server : ServerRow) (target : String × String)
      → f.server ≢ ""
      → get_server_by_hostname f.server db.servers ≡ some server
      → resolve_target f.server f.server_group db ≡ some target
      → ("server", server.id) ≡ target
  unfolding resolve_target server_id_by_hostname
  target_named server target named found h = ground (arith, found, eq_iff f.server "")

  -- The grant for a user on a server.
  entitled :
      (user : UserRow) (server : ServerRow) (c : String) (review : ℕ)
      → contains (csv f.principals) c ≡ true
      → get_server_by_hostname f.server db.servers ≡ some server
      → c ≢ ""
      → (is_empty server.allowed_principals || contains server.allowed_principals c) ≡ true
      → (d : Decision) × (authorize
            (store_authz_backend
              (directory_of (with_grant ("user", user.id) ("server", server.id) review)))
            (user_identity user)
            (record { requested_login = c; host = f.server })
          ≡ allow d)
        × Honours f.shell f.exec f.sftp f.recording (ttl_seconds f.ttl) server c d
  entitled user server c review account at nonempty listed =
      let input = flags_input f ("user", user.id) ("server", server.id) review in
      (
        decision calls.new_id input (directory_of db) (user_identity user) server f.server c,
        created-authorize calls.new_id input (directory_of db) (user_identity user) server f.server
            c (ground (arith, eq_refl user.id)) (ground (arith, eq_refl server.id)) account at
            nonempty listed,
        created-Honours calls.new_id input (directory_of db) (user_identity user) server f.server c
            (ground (arith, eq_refl user.id)) (ground (arith, eq_refl server.id)) account,
      )

  -- After a grant was added for a user and a server by their names, the user is let in on that server as
  -- each of the accounts of the list that the server's allowlist (where there is one) has: with what the flags
  -- allow, for at least the duration that was stored.
  pub authorize-cmd_add_grant :
      (db' : Db) (user : UserRow) (server : ServerRow) (c : String)
      → cmd_add_grant calls f db ≡ some db'
      → f.subject_user ≢ ""
      → f.server ≢ ""
      → find (λ (u : UserRow). u.username == f.subject_user) db.accounts.users ≡ some user
      → get_server_by_hostname f.server db.servers ≡ some server
      → contains (csv f.principals) c ≡ true
      → c ≢ ""
      → (is_empty server.allowed_principals || contains server.allowed_principals c) ≡ true
      → (d : Decision) × (authorize
            (store_authz_backend (directory_of db'))
            (user_identity user)
            (record { requested_login = c; host = f.server })
          ≡ allow d)
        × Honours f.shell f.exec f.sftp f.recording (ttl_seconds f.ttl) server c d
  authorize-cmd_add_grant db' user server c works by_user by_server found at account nonempty
        listed =
      let (subject, target, review, resolved, reached, left) = added db' works in
      let e = subject_named user subject by_user found resolved in
      let e' = target_named server target by_server at reached in
      subst
        (λ (x : Db).
          (d : Decision) × (authorize (store_authz_backend (directory_of x)) (user_identity user)
              (record { requested_login = c; host = f.server })
            ≡ allow d)
          × Honours f.shell f.exec f.sftp f.recording (ttl_seconds f.ttl) server c d)
        (ap (λ (s : String × String). with_grant s ("server", server.id) review) e
          ∙ ap (λ (t : String × String). with_grant subject t review) e'
          ∙ left)
        (entitled user server c review account at nonempty listed)
