-- ===== src/Proxy/DbAuthz/Soundness.antt =====
-- internal/proxy/dbauthz.go: exactly when a connection is authorized.
use mathlib.Core.Path.{fun_ext, subst}
use ssh_access.Prelude.{
  String, ◌≡◌, ◌⊎◌, ◌↔◌, inl, inr, refl, sym, ap, ◌∙◌, true, false, Option, none, some, List, [],
  ◌∷◌, arith, ◌==◌, is_empty, if◌then◌else◌,
}
use ssh_access.Proxy.Types.{
  Identity, TargetSpec, Decision, Denial, Authorization, allow, subject_user,
}
use ssh_access.Proxy.DbAuthz.{
  ResolvedServer, ResolvedGrant, AuthzBackend, Resolution, account, refused, resolve_principal,
  compose, usable_accounts, decide, or_not_found, user_groups, authorize, ◌>>=◌,
}
use ssh_access.Proxy.DbAuthz.Sets.{
  granted, permitted, contains-usable_accounts, Distinct-usable_accounts,
}
use ssh_access.Proxy.DbAuthz.Resolve.{IsChosen, resolve_iff}

-- The account is permitted by a grant and by the allowlist, and it is the one named or the only one.
pub record IsEntitled (id : Identity) (target : TargetSpec) (server : ResolvedServer)
    (grants : List ResolvedGrant) (c : String) : Type 0 where
  pub usable : permitted server grants c ≡ true
  pub chosen : IsChosen id target (permitted server grants) c

IsEntitled-iff :
    (id : Identity) (target : TargetSpec) (server : ResolvedServer) (grants : List ResolvedGrant)
    (c : String)
    → (resolve_principal id target (usable_accounts server grants) ≡ account c)
      ↔ IsEntitled id target server grants c
IsEntitled-iff id target server grants c =
    let same = fun_ext (contains-usable_accounts server grants) in
    let (sound, complete) =
      resolve_iff id target (usable_accounts server grants) c
        (Distinct-usable_accounts server grants) in
    (
      λ h.
          let (usable, chosen) =
            subst (λ u. (u c ≡ true) × IsChosen id target u c) same (sound h) in
          record { usable = usable; chosen = chosen },
      λ e.
          complete
            (subst (λ u. (u c ≡ true) × IsChosen id target u c) (sym same) (e.usable, e.chosen)),
    )

granted-not_empty :
    (grants : List ResolvedGrant) (c : String) → granted grants c ≡ true → is_empty grants ≡ false
granted-not_empty [] c h = absurd (ground arith)
granted-not_empty (g ∷ gs) c h = refl

Resolution-cases :
    (r : Resolution) → ((c : String) × (r ≡ account c)) ⊎ ((why : Denial) × (r ≡ refused why))
Resolution-cases (account c) = inl (c, refl)
Resolution-cases (refused why) = inr (why, refl)

decide_sound :
    (id : Identity) (target : TargetSpec) (server : ResolvedServer) (grants : List ResolvedGrant)
    (d : Decision)
    → decide id target server grants ≡ allow d
    → (c : String) × IsEntitled id target server grants c × (d ≡ compose server grants c)
unfolding decide
decide_sound id target server grants d h =
    elim (Resolution-cases (resolve_principal id target (usable_accounts server grants))) [
      | inl (c, e) ↦ (c, (IsEntitled-iff id target server grants c).0 e, ground arith)
      | inr (why, e) ↦ absurd (ground arith)
    ]

decide_complete :
    (id : Identity) (target : TargetSpec) (server : ResolvedServer) (grants : List ResolvedGrant)
    (c : String)
    → IsEntitled id target server grants c
    → decide id target server grants ≡ allow (compose server grants c)
unfolding decide
decide_complete id target server grants c e =
    ground
      (arith, (IsEntitled-iff id target server grants c).1 e, e.usable, granted-not_empty grants c)

-- The backend has answered every question with this server and these grants.
pub record Answers (b : AuthzBackend) (id : Identity) (target : TargetSpec)
    (server : ResolvedServer) (grants : List ResolvedGrant) : Type 0 where
  pub groups : List String
  pub server_groups : List String
  pub found : b.server_by_hostname target.host ≡ some (some server)
  pub of_user :
      (if id.subject == subject_user then b.groups_for_user id.id else some []) ≡ some groups
  pub of_server : b.groups_for_server server.id ≡ some server_groups
  pub matching : b.matching_grants id.subject id.id groups server.id server_groups ≡ some grants

bind-eq-allow :
    {A : Type 0} (m : Option A) (k : A → Authorization) {d : Decision}
    → (m >>= k) ≡ allow d
    → (a : A) × (m ≡ some a) × (k a ≡ allow d)
bind-eq-allow none k h = cc
bind-eq-allow (some a) k h = (a, refl, h)

or_not_found-eq-allow :
    (m : Option ResolvedServer) (k : ResolvedServer → Authorization) {d : Decision}
    → or_not_found m k ≡ allow d
    → (a : ResolvedServer) × (m ≡ some a) × (k a ≡ allow d)
unfolding or_not_found
or_not_found-eq-allow none k h = cc
or_not_found-eq-allow (some a) k h = (a, refl, h)

authorize_sound :
    (b : AuthzBackend) (id : Identity) (target : TargetSpec) (d : Decision)
    → authorize b id target ≡ allow d
    → (server : ResolvedServer) × (grants : List ResolvedGrant) × Answers b id target server grants
      × (decide id target server grants ≡ allow d)
unfolding authorize user_groups
authorize_sound b id target d h =
    let (reply, asked, h₁) = bind-eq-allow _ _ h in
    let (server, present, h₂) = or_not_found-eq-allow reply _ h₁ in
    let (groups, of_user, h₃) = bind-eq-allow _ _ h₂ in
    let (server_groups, of_server, h₄) = bind-eq-allow _ _ h₃ in
    let (grants, matching, h₅) = bind-eq-allow _ _ h₄ in
    (
      server,
      grants,
      record {
        groups = groups;
        server_groups = server_groups;
        found = asked ∙ ap some present;
        of_user = of_user;
        of_server = of_server;
        matching = matching;
      },
      h₅,
    )

authorize_complete :
    (b : AuthzBackend) (id : Identity) (target : TargetSpec) (server : ResolvedServer)
    (grants : List ResolvedGrant)
    → Answers b id target server grants
    → authorize b id target ≡ decide id target server grants
unfolding authorize
authorize_complete b id target server grants a =
    ground (arith, a.found, a.of_user, a.of_server, a.matching)

-- A connection is authorized exactly when the backend answers every question, some matching grant
-- permits the account, the server's allowlist (where there is one) names it, and the account is
-- the one that the user named or, where the broker derives it, the only one that grants
-- and allowlist leave. The decision is then the union of the grants that permit the account.
pub authorize_iff :
    (b : AuthzBackend) (id : Identity) (target : TargetSpec) (d : Decision)
    → (authorize b id target ≡ allow d) ↔ (
        (server : ResolvedServer) × (grants : List ResolvedGrant) × (c : String) × Answers b id
          target server grants
        × IsEntitled id target server grants c
        × (d ≡ compose server grants c))
authorize_iff b id target d = (
  λ h.
      let (server, grants, answers, h') = authorize_sound b id target d h in
      let (c, entitled, same) = decide_sound id target server grants d h' in
      (server, grants, c, answers, entitled, same),
  λ (server, grants, c, answers, entitled, same).
      authorize_complete b id target server grants answers
      ∙ decide_complete id target server grants c entitled
      ∙ ap allow (sym same),
)
