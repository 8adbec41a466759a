-- ===== src/Broker/Authz/Created.antt =====
-- cmd/broker/main.go with internal/store/repositories.go: what a row that was created gives.
use ssh_access.Prelude.{
  arith, ℕ, ◌*◌, ◌≡◌, ◌≢◌, refl, sym, ap, ◌∙◌, subst, String, Bool, true, false, not, ◌&&◌, ◌||◌,
  ◌==◌, some, [], ◌∷◌, any, contains, is_empty, if◌then◌else◌, eq_iff,
}
use ssh_access.Prelude.Int.{pos, ◌≤ℤ◌}
use ssh_access.Proxy.Types.{Identity, Decision, allow}
use ssh_access.Proxy.DbAuthz.{ResolvedGrant, authorize, compose}
use ssh_access.Proxy.DbAuthz.Compose.{allows, compose-IsUnion}
use ssh_access.Store.Grants.{GrantRow, create_grant, ttl_seconds, second, grant_of}
use ssh_access.Store.Servers.{ServerRow}
use ssh_access.Broker.Authz.{
  Directory, get_server_by_hostname, resolved_server, resolved_grant, store_authz_backend,
}
use ssh_access.Broker.Authz.Granted.{names_subject, names_server}
use ssh_access.Broker.Authz.Complete.{
  authorize_named, first_allows, lasts, grants, selects, selects_named,
}
use ssh_access.Store.Grants.{CreateGrantInput, ttl_seconds}

-- What is asked for, a decision allows.
pub record Honours (shell exec sftp : Bool) (recording : String) (n : ℕ) (server : ServerRow)
    (c : String) (d : Decision) : Type 0 where
  pub login : d.login ≡ c
  pub principals : d.principals ≡ c ∷ []
  pub host_key : d.host_key_fingerprint ≡ server.host_key_fingerprint
  pub may_shell : (not shell || d.allow_shell) ≡ true
  pub may_exec : (not exec || d.allow_exec) ≡ true
  pub may_sftp : (not sftp || d.allow_sftp) ≡ true
  pub recorded : (not (recording == "full") || d.recording == "full") ≡ true
  pub ttl : pos (n * second) ≤ℤ d.ttl

implied : (a b : Bool) → (a ≡ true → b ≡ true) → (not a || b) ≡ true
implied true b h = h refl
implied false b h = refl

module _ (id : String) (input : CreateGrantInput) (db : Directory) (i : Identity)
    (server : ServerRow) (host c : String) where
  abbrev new_row : GrantRow
  new_row = record {
    id = id;
    subject_type = input.subject_type;
    subject_id = input.subject_id;
    target_type = input.target_type;
    target_id = input.target_id;
    principals = input.principals;
    max_ttl = ttl_seconds input.max_ttl;
    allow_shell = input.allow_shell;
    allow_exec = input.allow_exec;
    allow_sftp = input.allow_sftp;
    recording = if input.recording == "" then "metadata" else input.recording;
    review_by = input.review_by;
  }

  abbrev pub after : Directory
  after = record db { grants = create_grant id input db.grants }

  granting : create_grant id input db.grants ≡ new_row ∷ db.grants
  unfolding create_grant
  granting = refl

  abbrev pub decision : Decision
  decision = compose (resolved_server server) (grants after i server host c) c

  module _ (subject : names_subject i db new_row ≡ true)
      (target : names_server server db new_row ≡ true)
      (account : contains input.principals c ≡ true) where
    chosen : selects after i server host c new_row ≡ true
    chosen = selects_named after i server host c new_row ∙ ground (arith, subject, target)

    capability :
        (cap : ResolvedGrant → Bool)
        → cap (resolved_grant (grant_of new_row)) ≡ true
        → allows cap (grants after i server host c) c ≡ true
    capability = first_allows after i server host c new_row db.grants granting chosen account

    full_recording :
        (input.recording == "full") ≡ true
        → allows (λ r. r.recording == "full") (grants after i server host c) c ≡ true
    full_recording h =
        capability (λ r. r.recording == "full")
          (subst (λ (r : String). ((if r == "" then "metadata" else r) == "full") ≡ true)
            (sym ((eq_iff input.recording "full").0 h)) refl)

    pub created-Honours :
        Honours input.allow_shell input.allow_exec input.allow_sftp input.recording
          (ttl_seconds input.max_ttl)
          server
          c
          decision
    created-Honours =
        let union = compose-IsUnion (resolved_server server) (grants after i server host c) c in
        record {
          login = union.login;
          principals = union.principals;
          host_key = union.host_key_fingerprint;
          may_shell = implied _ _ (λ h. union.shell ∙ capability (λ r. r.allow_shell) h);
          may_exec = implied _ _ (λ h. union.exec ∙ capability (λ r. r.allow_exec) h);
          may_sftp = implied _ _ (λ h. union.sftp ∙ capability (λ r. r.allow_sftp) h);
          recorded = implied (input.recording == "full") (decision.recording == "full") (λ h.
              ap (λ (r : String). r == "full")
                (union.recording
                  ∙ ap (λ (full : Bool). if full then "full" else "metadata") (full_recording h)));
          ttl = lasts after i server host c new_row db.grants granting chosen account;
        }

    pub created-authorize :
        get_server_by_hostname host db.servers ≡ some server
        → c ≢ ""
        → (is_empty server.allowed_principals || contains server.allowed_principals c) ≡ true
        → authorize (store_authz_backend after) i (record { requested_login = c; host = host })
          ≡ allow decision
    created-authorize at nonempty listed =
        authorize_named after i server host c at nonempty listed (
          ap
            (any (λ g.
              names_subject i after g && names_server server after g && contains g.principals c))
            granting
          ∙ ground (arith, subject, target, account))
