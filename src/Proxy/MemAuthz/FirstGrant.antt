-- ===== src/Proxy/MemAuthz/FirstGrant.antt =====
-- internal/proxy/memauthz.go: the first grant that permits the login decides.
use ssh_access.Prelude.{
  arith, String, Bool, true, false, ◌&&◌, ◌==◌, ◌≡◌, ◌≢◌, ◌↔◌, none, some, List, [], ◌∷◌, contains,
  lookup, find, sym, Option-cases, eq_iff, inl, inr, ◌∙◌,
}
use ssh_access.Prelude.Int.{ℤ}
use ssh_access.Proxy.Types.{Identity, TargetSpec, Decision, allow}
use ssh_access.Proxy.MemAuthz.{
  GrantPolicy, TargetPolicy, MemoryAuthorizer, ParseDuration, parse_ttl, granted_decision, by_grant,
  authorize_loop, authorize,
}

-- The grant names the subject and the login.
abbrev pub permits : String → String → GrantPolicy → Bool
permits label login g = g.subject == label && contains g.principals login

module _ (parse_duration : ParseDuration) (id : Identity) (tp : TargetPolicy) (login : String) where
  loop-allow :
      (flag : Bool) (gs : List GrantPolicy) (g : GrantPolicy)
      → find (permits id.label login) gs ≡ some g
      → authorize_loop parse_duration id tp login flag gs ≡ by_grant parse_duration tp login g
  unfolding authorize_loop
  loop-allow flag [] g h = absurd (ground arith)
  loop-allow flag (x ∷ gs) g h = ground (arith, loop-allow flag gs g, loop-allow true gs g)

  loop-deny :
      (flag : Bool) (gs : List GrantPolicy) (d : Decision)
      → find (permits id.label login) gs ≡ none
      → authorize_loop parse_duration id tp login flag gs ≢ allow d
  unfolding authorize_loop
  loop-deny true [] d h = λ e. cc
  loop-deny false [] d h = λ e. cc
  loop-deny flag (x ∷ gs) d h = ground (arith, loop-deny flag gs d, loop-deny true gs d)

  by_grant_iff :
      (g : GrantPolicy) (d : Decision)
      → (by_grant parse_duration tp login g ≡ allow d) ↔ (
          (ttl : ℤ) × (parse_ttl parse_duration g.max_ttl ≡ some ttl)
          × (d ≡ granted_decision tp g login ttl))
  by_grant_iff g d = elim (Option-cases (parse_ttl parse_duration g.max_ttl)) [
    | inl e ↦ ((λ h. absurd (ground arith)), λ (ttl, f, same). absurd (ground arith))
    | inr (ttl, e) ↦ ((λ h. (ttl, e, ground arith)), λ (t, f, same). ground arith)
  ]

-- The policy permits the connection: its first grant for subject and login on the host gives the decision.
pub record IsPermitted (parse_duration : ParseDuration) (a : MemoryAuthorizer) (id : Identity)
    (target : TargetSpec) (d : Decision) : Type 0 where
  pub policy : TargetPolicy
  pub grant : GrantPolicy
  pub ttl : ℤ
  pub on_host : lookup target.host a ≡ some policy
  pub explicit : target.requested_login ≢ ""
  pub first : find (permits id.label target.requested_login) policy.grants ≡ some grant
  pub parsed : parse_ttl parse_duration grant.max_ttl ≡ some ttl
  pub decision : d ≡ granted_decision policy grant target.requested_login ttl

-- What the backend says about a host that the policy names.
module _ (parse_duration : ParseDuration) (a : MemoryAuthorizer) (id : Identity)
    (target : TargetSpec) (tp : TargetPolicy) (on_host : lookup target.host a ≡ some tp) where
  explicit_value :
      target.requested_login ≢ ""
      → authorize parse_duration a id target
        ≡ authorize_loop parse_duration id tp target.requested_login false tp.grants
  unfolding authorize
  explicit_value h = ground (arith, eq_iff target.requested_login "")

  empty_value :
      (d : Decision) → authorize parse_duration a id target ≡ allow d → target.requested_login ≢ ""
  unfolding authorize
  empty_value d h = ground (arith, eq_iff target.requested_login "")

  permitted :
      (d : Decision)
      → authorize parse_duration a id target ≡ allow d
      → IsPermitted parse_duration a id target d
  permitted d h =
      let login = target.requested_login in
      let named = empty_value d h in
      let looped : authorize_loop parse_duration id tp login false tp.grants ≡ allow d =
        sym (explicit_value named) ∙ h in
      elim (Option-cases (find (permits id.label login) tp.grants)) [
        | inl e ↦ absurd (loop-deny parse_duration id tp login false tp.grants d e looped)
        | inr (g, e) ↦
            let decided =
              sym (loop-allow parse_duration id tp login false tp.grants g e) ∙ looped in
            let (ttl, parsed, same) = (by_grant_iff parse_duration id tp login g d).0 decided in
            record {
              policy = tp;
              grant = g;
              ttl = ttl;
              on_host = on_host;
              explicit = named;
              first = e;
              parsed = parsed;
              decision = same;
            }
      ]

no_host :
    (parse_duration : ParseDuration) (a : MemoryAuthorizer) (id : Identity) (target : TargetSpec)
    (d : Decision)
    → lookup target.host a ≡ none
    → authorize parse_duration a id target ≢ allow d
unfolding authorize
no_host parse_duration a id target d e = ground (arith, e)

-- The file backend authorizes a connection exactly when the policy names the host, an account is
-- requested, and the first grant of the host that names the subject and the account has a lifetime
-- that parses; that grant alone gives the decision.
pub authorize_mem_iff :
    (parse_duration : ParseDuration) (a : MemoryAuthorizer) (id : Identity) (target : TargetSpec)
    (d : Decision)
    → (authorize parse_duration a id target ≡ allow d) ↔ IsPermitted parse_duration a id target d
authorize_mem_iff parse_duration a id target d = (
  (λ h. elim (Option-cases (lookup target.host a)) [
    | inl e ↦ absurd (no_host parse_duration a id target d e h)
    | inr (tp, e) ↦ permitted parse_duration a id target tp e d h
  ]),
  (λ p.
      explicit_value parse_duration a id target p.policy p.on_host p.explicit
      ∙ loop-allow parse_duration id p.policy target.requested_login false p.policy.grants p.grant
          p.first
      ∙ (by_grant_iff parse_duration id p.policy target.requested_login p.grant d).1
          (p.ttl, p.parsed, p.decision)),
)
