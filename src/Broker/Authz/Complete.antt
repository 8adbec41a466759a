-- ===== src/Broker/Authz/Complete.antt =====
-- cmd/broker/main.go with internal/store/repositories.go: a row of the grants table gives access.
use ssh_access.Prelude.{
  arith, ◌*◌, All, subst, String, Bool, true, false, ◌==◌, ◌&&◌, ◌||◌, ◌≡◌, ◌≢◌, refl, ap, ◌∙◌, inl,
  some, List, [], ◌∷◌, map, any, contains, is_empty, if◌then◌else◌,
}
use ssh_access.Proxy.Types.{Identity, TargetSpec, allow, subject_user}
use ssh_access.Proxy.DbAuthz.{ResolvedGrant, authorize, compose}
use ssh_access.Prelude.Int.{pos, ◌≤ℤ◌}
use ssh_access.Proxy.DbAuthz.Compose.{allows, compose-IsUnion}
use ssh_access.Proxy.DbAuthz.Soundness.{Answers, authorize_iff}
use ssh_access.Store.Grants.{GrantRow, matches, matching_grants, grant_of, second}
use ssh_access.Store.Servers.{ServerRow}
use ssh_access.Broker.Authz.{
  Directory, groups_of, get_server_by_hostname, resolved_server, resolved_option, resolved_grant,
  store_authz_backend,
}
use ssh_access.Broker.Authz.Granted.{
  names_subject, names_server, is_member, contains-groups_of, contains-groups_for,
}

pub any-matching_grants :
    (q : ResolvedGrant → Bool) (subject_type subject_id : String) (ug : List String)
    (server : String) (sg : List String) (rows : List GrantRow)
    → any q (map resolved_grant (matching_grants subject_type subject_id ug server sg rows))
      ≡ any
          (λ g. matches subject_type subject_id ug server sg g && q (resolved_grant (grant_of g)))
          rows
unfolding matching_grants
any-matching_grants q subject_type subject_id ug server sg [] = refl
any-matching_grants q subject_type subject_id ug server sg (g ∷ rows) =
    ground (arith, any-matching_grants q subject_type subject_id ug server sg rows)

option_groups :
    (b : Bool) (xs : List String) → (if b then some xs else some []) ≡ some (if b then xs else [])
option_groups true xs = refl
option_groups false xs = refl

any_same :
    {A : Type 0} {p q : A → Bool} → ((x : A) → p x ≡ q x) → (xs : List A) → any p xs ≡ any q xs
any_same h [] = refl
any_same h (x ∷ xs) = ground (arith, h x, any_same h xs)

module _ (db : Directory) (i : Identity) (server : ServerRow) (host c : String) where
  abbrev pub groups : List String
  groups = if i.subject == subject_user then groups_of i.id db.user_group_members else []

  abbrev pub server_groups : List String
  server_groups = groups_of server.id db.server_group_members

  -- The WHERE clause, with the groups that the broker asks for.
  abbrev pub selects : GrantRow → Bool
  selects = matches i.subject i.id groups server.id server_groups

  abbrev pub grants : List ResolvedGrant
  grants =
      map resolved_grant (matching_grants i.subject i.id groups server.id server_groups db.grants)

  abbrev pub named_target : TargetSpec
  named_target = record { requested_login = c; host = host }

  contains-groups :
      (group : String)
      → contains groups group ≡ (i.subject == "user" && is_member group i.id db.user_group_members)
  contains-groups group =
      contains-groups_for i db.user_group_members groups group
        (option_groups (i.subject == subject_user) _)

  -- The WHERE clause reads as the names of the grant.
  pub selects_named :
      (g : GrantRow) → selects g ≡ (names_subject i db g && names_server server db g)
  selects_named g = ground (
    arith,
    contains-groups g.subject_id,
    contains-groups_of server.id db.server_group_members g.target_id,
  )

  answers :
      get_server_by_hostname host db.servers ≡ some server
      → Answers (store_authz_backend db) i named_target (resolved_server server) grants
  unfolding store_authz_backend
  answers at = record {
    groups = groups;
    server_groups = server_groups;
    found = ap (λ o. some (resolved_option o)) at;
    of_user = option_groups (i.subject == subject_user) _;
    of_server = refl;
    matching = refl;
  }

  granted_row :
      any
          (λ g. names_subject i db g && names_server server db g && contains g.principals c)
          db.grants
        ≡ true
      → any (λ r. contains r.principals c) grants ≡ true
  granted_row h =
      any-matching_grants (λ r. contains r.principals c) i.subject i.id groups server.id
        server_groups db.grants
      ∙ any_same (λ g. ground (arith, selects_named g)) db.grants
      ∙ h

  -- An account that is named is let in where a row of the grants names the subject or a group of the
  -- user, the server or a group of it, and the account, and the allowlist (where there is one) has it.
  pub authorize_named :
      get_server_by_hostname host db.servers ≡ some server
      → c ≢ ""
      → (is_empty server.allowed_principals || contains server.allowed_principals c) ≡ true
      → any
          (λ g. names_subject i db g && names_server server db g && contains g.principals c)
          db.grants
        ≡ true
      → authorize (store_authz_backend db) i named_target
        ≡ allow (compose (resolved_server server) grants c)
  authorize_named at nonempty listed h =
      (authorize_iff (store_authz_backend db) i named_target
          (compose (resolved_server server) grants c)).1
        (
          resolved_server server,
          grants,
          c,
          answers at,
          record {
            usable = let there = granted_row h in ground arith;
            chosen = inl (refl, nonempty);
          },
          refl,
        )

matching-first :
    (subject_type subject_id : String) (ug : List String) (server : String) (sg : List String)
    (g : GrantRow) (rows : List GrantRow)
    → matches subject_type subject_id ug server sg g ≡ true
    → matching_grants subject_type subject_id ug server sg (g ∷ rows)
      ≡ grant_of g ∷ matching_grants subject_type subject_id ug server sg rows
unfolding matching_grants
matching-first subject_type subject_id ug server sg g rows e = rw e refl

-- A directory whose first grant names the subject, the server and the account.
module _ (db : Directory) (i : Identity) (server : ServerRow) (host c : String) (g : GrantRow)
    (rows : List GrantRow) (first : db.grants ≡ g ∷ rows)
    (chosen : selects db i server host c g ≡ true) (named : contains g.principals c ≡ true) where
  abbrev matching : List ResolvedGrant
  matching = grants db i server host c

  matching_cons : (rest : List ResolvedGrant) × (matching ≡ resolved_grant (grant_of g) ∷ rest)
  matching_cons = (
    _,
    ap
          (λ gs. map resolved_grant (
            matching_grants i.subject i.id (groups db i server host c) server.id
              (server_groups db i server host c) gs))
          first
        ∙ ap (map resolved_grant) (
            matching-first i.subject i.id (groups db i server host c) server.id
              (server_groups db i server host c) g rows chosen),
  )

  pub first_allows :
      (cap : ResolvedGrant → Bool)
      → cap (resolved_grant (grant_of g)) ≡ true
      → allows cap matching c ≡ true
  first_allows cap h = let (rest, e) = matching_cons in ap (λ gs. allows cap gs c) e ∙ ground arith

  pub lasts : pos (g.max_ttl * second) ≤ℤ (compose (resolved_server server) matching c).ttl
  lasts =
      let (rest, e) = matching_cons in
      let longest = (compose-IsUnion (resolved_server server) matching c).ttl_longest in
      (subst
          (All (λ (r : ResolvedGrant).
            contains r.principals c ≡ true
            → r.max_ttl ≤ℤ (compose (resolved_server server) matching c).ttl))
          e longest).0
        named
