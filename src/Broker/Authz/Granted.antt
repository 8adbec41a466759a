-- ===== src/Broker/Authz/Granted.antt =====
-- cmd/broker/main.go with internal/store/repositories.go: no access without a row of the grants table.
use mathlib.Core.Path.{subst}
use ssh_access.Prelude.{
  String, Bool, true, false, ◌==◌, ◌&&◌, ◌||◌, not, ◌≡◌, ◌≢◌, refl, ap, sym, ◌∙◌, some, List, [],
  ◌∷◌, map, filter, any, contains, is_empty, arith, Option-cases, Bool-cases, inl, inr,
  if◌then◌else◌,
}
use ssh_access.Proxy.Types.{Identity, TargetSpec, Decision, allow, subject_user}
use ssh_access.Proxy.DbAuthz.{ResolvedServer, authorize}
use ssh_access.Proxy.DbAuthz.Sets.{granted, permitted}
use ssh_access.Proxy.DbAuthz.Compose.{compose-IsUnion}
use ssh_access.Proxy.DbAuthz.Soundness.{authorize_iff}
use ssh_access.Store.Grants.{
  GrantRow, matches, matching_grants, delete_user, delete_with_direct_grants,
}
use ssh_access.Store.Servers.{ServerRow, Members}
use ssh_access.Broker.Authz.{
  Directory, groups_of, get_server_by_hostname, resolved_server, resolved_grant,
  store_authz_backend,
}

abbrev pub is_member : String → String → Members → Bool
is_member group member ms = any (λ (m : String × String). m.1 == member && m.0 == group) ms

-- The grant names the subject, or a group of which it is a member.
abbrev pub names_subject : Identity → Directory → GrantRow → Bool
names_subject id db g =
    (g.subject_type == id.subject && g.subject_id == id.id)
    || (g.subject_type == "user_group"
        && (id.subject == "user" && is_member g.subject_id id.id db.user_group_members))

-- The grant names the server, or a group of which it is a member.
abbrev pub names_server : ServerRow → Directory → GrantRow → Bool
names_server server db g =
    (g.target_type == "server" && g.target_id == server.id)
    || (g.target_type == "server_group" && is_member g.target_id server.id db.server_group_members)

pub contains-groups_of :
    (member : String) (ms : Members) (group : String)
    → contains (groups_of member ms) group ≡ is_member group member ms
unfolding groups_of contains
contains-groups_of member [] group = refl
contains-groups_of member (m ∷ ms) group = ground (arith, contains-groups_of member ms group)

granted-matching :
    (subject_type subject_id : String) (ug : List String) (server : String) (sg : List String)
    (rows : List GrantRow) (c : String)
    → granted (map resolved_grant (matching_grants subject_type subject_id ug server sg rows)) c
      ≡ any (λ g. matches subject_type subject_id ug server sg g && contains g.principals c) rows
unfolding matching_grants
granted-matching subject_type subject_id ug server sg [] c = refl
granted-matching subject_type subject_id ug server sg (g ∷ rows) c =
    ground (arith, granted-matching subject_type subject_id ug server sg rows c)

any-implies :
    {A : Type 0} (p q : A → Bool) (xs : List A)
    → ((x : A) → p x ≡ true → q x ≡ true)
    → any p xs ≡ true
    → any q xs ≡ true
any-implies p q [] h e = e
any-implies p q (x ∷ xs) h e = ground (arith, h x, any-implies p q xs h)

pub contains-groups_for :
    (id : Identity) (ms : Members) (ug : List String) (group : String)
    → (if id.subject == subject_user then some (groups_of id.id ms) else some []) ≡ some ug
    → contains ug group ≡ (id.subject == "user" && is_member group id.id ms)
unfolding contains
contains-groups_for id ms ug group h = elim (Bool-cases (id.subject == subject_user)) [
  | inl e ↦
      let same : groups_of id.id ms ≡ ug = ground arith in
      ap (λ gs. contains gs group) (sym same) ∙ contains-groups_of id.id ms group ∙ ground arith
  | inr e ↦ let same : ug ≡ [] = ground arith in ap (λ gs. contains gs group) same ∙ ground arith
]

matching-names :
    (db : Directory) (id : Identity) (server : ServerRow) (ug sg : List String) (c : String)
    → ((g : String)
        → contains ug g ≡ (id.subject == "user" && is_member g id.id db.user_group_members))
    → ((g : String) → contains sg g ≡ is_member g server.id db.server_group_members)
    → any (λ g. matches id.subject id.id ug server.id sg g && contains g.principals c) db.grants
      ≡ true
    → any
        (λ g. names_subject id db g && names_server server db g && contains g.principals c)
        db.grants
      ≡ true
matching-names db id server ug sg c hu hs h =
    any-implies _ _ db.grants (λ g e. ground (arith, e, hu g.subject_id, hs g.target_id)) h

any_assoc :
    (p q r : GrantRow → Bool) (xs : List GrantRow)
    → any (λ g. (p g && q g) && r g) xs ≡ any (λ g. p g && (q g && r g)) xs
any_assoc p q r [] = refl
any_assoc p q r (x ∷ xs) = ground (arith, any_assoc p q r xs)

-- Over the tables of the database, a user or service account is let in to an account of a target only if
-- the target's name is that of a server, some row of the grants names the subject or a group of the
-- user, the server or a group of it, and the account, and the server's allowlist (where
-- there is one) has the account.
pub authorize-granted :
    (db : Directory) (id : Identity) (target : TargetSpec) (d : Decision)
    → authorize (store_authz_backend db) id target ≡ allow d
    → (server : ServerRow) × (get_server_by_hostname target.host db.servers ≡ some server)
      × (any
            (λ g.
              names_subject id db g && names_server server db g && contains g.principals d.login)
            db.grants
          ≡ true)
      × ((is_empty server.allowed_principals || contains server.allowed_principals d.login) ≡ true)
unfolding store_authz_backend
authorize-granted db id target d h =
    let (server, grants, c, answers, entitled, same) =
      (authorize_iff (store_authz_backend db) id target d).0 h in
    elim (Option-cases (get_server_by_hostname target.host db.servers)) [
      | inl e ↦ absurd (ground (arith, answers.found, e))
      | inr (row, e) ↦
          let at : resolved_server row ≡ server = ground (arith, answers.found, e) in
          let login : c ≡ d.login =
            sym (ap (λ (q : Decision). q.login) same ∙ (compose-IsUnion server grants c).login) in
          let usable : permitted server grants d.login ≡ true =
            subst (λ a. permitted server grants a ≡ true) login entitled.usable in
          let members : groups_of row.id db.server_group_members ≡ answers.server_groups = ground (
            arith,
            answers.of_server,
            ap (λ (q : ResolvedServer). groups_of q.id db.server_group_members) at,
          ) in
          let found : map resolved_grant (
                matching_grants id.subject id.id answers.groups server.id answers.server_groups
                  db.grants)
              ≡ grants =
            ground (arith, answers.matching) in
          (
            row,
            e,
            matching-names db id row answers.groups answers.server_groups d.login
                (λ g. contains-groups_for id db.user_group_members answers.groups g answers.of_user)
                (λ g.
                  ap (λ gs. contains gs g) (sym members)
                  ∙ contains-groups_of row.id db.server_group_members g)
                (subst
                  (λ i.
                    any
                      (λ g.
                        matches id.subject id.id answers.groups i answers.server_groups g
                        && contains g.principals d.login)
                      db.grants
                    ≡ true)
                  (sym (ap (λ (q : ResolvedServer). q.id) at))
                  (sym (
                      granted-matching id.subject id.id answers.groups server.id
                        answers.server_groups db.grants d.login)
                    ∙ ap (λ gs. granted gs d.login) found
                    ∙ ground (arith, usable))),
            ap
                  (λ (q : ResolvedServer).
                    is_empty q.allowed_principals || contains q.allowed_principals d.login)
                  at
                ∙ ground (arith, usable),
          )
    ]

any-none :
    (p : GrantRow → Bool) (q : GrantRow → Bool) (xs : List GrantRow)
    → any p xs ≡ false
    → any (λ g. p g && q g) xs ≡ false
any-none p q [] h = refl
any-none p q (x ∷ xs) h = ground (arith, any-none p q xs)

is_member-cascade :
    (group user : String) (ms : Members)
    → is_member group user (filter (λ (m : String × String). not (m.1 == user)) ms) ≡ false
is_member-cascade group user [] = refl
is_member-cascade group user (m ∷ ms) = ground (arith, is_member-cascade group user ms)

module _ (user label : String) (db : Directory) where
  -- The tables without the user's direct grants and, by the foreign key, without its memberships.
  abbrev pub without_user : List GrantRow → Directory
  without_user rows = record db {
    grants = rows;
    user_group_members = filter (λ (m : String × String). not (m.1 == user)) db.user_group_members;
  }

  abbrev identity : Identity
  identity = record { subject = "user"; id = user; label = label }

  none_named :
      (ms : List GrantRow) (rows : List GrantRow)
      → any
          (names_subject identity (without_user ms))
          (filter (λ g. not (g.subject_type == "user" && g.subject_id == user)) rows)
        ≡ false
  none_named ms [] = refl
  none_named ms (g ∷ rows) =
      ground (arith, none_named ms rows, is_member-cascade g.subject_id user db.user_group_members)

  -- A user who was deleted is not let in to any account of any target, even where the connection was
  -- authenticated before.
  pub delete_user-authorize :
      (users users' : List String) (rows : List GrantRow) (target : TargetSpec) (d : Decision)
      → delete_user user (users, db.grants) ≡ some (users', rows)
      → authorize (store_authz_backend (without_user rows)) identity target ≢ allow d
  unfolding delete_user delete_with_direct_grants
  delete_user-authorize users users' rows target d gone h =
      let (server, found, some_grant, listed) =
        authorize-granted (without_user rows) identity target d h in
      let same : filter (λ g. not (g.subject_type == "user" && g.subject_id == user)) db.grants
          ≡ rows =
        ground arith in
      let unnamed =
        subst (λ rs. any (names_subject identity (without_user rows)) rs ≡ false) same
          (none_named rows db.grants) in
      ground (
        arith,
        some_grant,
        any-none (names_subject identity (without_user rows))
            (λ g. names_server server (without_user rows) g && contains g.principals d.login) rows
            unnamed,
        any_assoc (names_subject identity (without_user rows))
            (names_server server (without_user rows)) (λ g. contains g.principals d.login) rows,
      )
