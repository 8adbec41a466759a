-- ===== src/Proxy/DbAuthz/Compose.antt =====
-- internal/proxy/dbauthz.go: the decision as the union of the grants that permit the account.
use ssh_access.Prelude.{
  String, ◌≡◌, ◌⊎◌, inl, inr, refl, Bool, true, false, ◌&&◌, ◌||◌, List, [], ◌∷◌, arith, ◌==◌,
  contains, any, All, Exists, if◌then◌else◌, Bool-cases,
}
use ssh_access.Prelude.Int.{pos, ltb_ℤ, ◌≤ℤ◌}
use ssh_access.Proxy.Types.{Decision}
use ssh_access.Proxy.DbAuthz.{
  ResolvedServer, ResolvedGrant, add_grant, add_grants, base_decision, finish, compose,
}

-- Some grant that permits the account has the capability.
abbrev pub allows : (ResolvedGrant → Bool) → List ResolvedGrant → String → Bool
allows cap grants chosen = any (λ g. contains g.principals chosen && cap g) grants

module _ (chosen : String) where
  add_grants-shell :
      (d : Decision) (gs : List ResolvedGrant)
      → (add_grants chosen d gs).allow_shell
        ≡ (d.allow_shell || allows (λ g. g.allow_shell) gs chosen)
  unfolding add_grants
  add_grants-shell d [] = ground arith
  add_grants-shell d (g ∷ gs) = ground (arith, add_grants-shell (add_grant chosen d g) gs)

  add_grants-exec :
      (d : Decision) (gs : List ResolvedGrant)
      → (add_grants chosen d gs).allow_exec ≡ (d.allow_exec || allows (λ g. g.allow_exec) gs chosen)
  unfolding add_grants
  add_grants-exec d [] = ground arith
  add_grants-exec d (g ∷ gs) = ground (arith, add_grants-exec (add_grant chosen d g) gs)

  add_grants-sftp :
      (d : Decision) (gs : List ResolvedGrant)
      → (add_grants chosen d gs).allow_sftp ≡ (d.allow_sftp || allows (λ g. g.allow_sftp) gs chosen)
  unfolding add_grants
  add_grants-sftp d [] = ground arith
  add_grants-sftp d (g ∷ gs) = ground (arith, add_grants-sftp (add_grant chosen d g) gs)

  add_grants-recording :
      (d : Decision) (gs : List ResolvedGrant)
      → (add_grants chosen d gs).recording
        ≡ (if allows (λ g. g.recording == "full") gs chosen then "full" else d.recording)
  unfolding add_grants
  add_grants-recording d [] = refl
  add_grants-recording d (g ∷ gs) = ground (arith, add_grants-recording (add_grant chosen d g) gs)

  -- What the loop leaves alone.
  record Kept (d e : Decision) : Type 0 where
    address : e.address ≡ d.address
    host_key_fingerprint : e.host_key_fingerprint ≡ d.host_key_fingerprint
    login : e.login ≡ d.login
    principals : e.principals ≡ d.principals

  add_grants-Kept : (d : Decision) (gs : List ResolvedGrant) → Kept d (add_grants chosen d gs)
  unfolding add_grants
  add_grants-Kept d [] = ground arith
  add_grants-Kept d (g ∷ gs) = ground (arith, add_grants-Kept (add_grant chosen d g) gs)

  add_grants-ttl_le :
      (d : Decision) (gs : List ResolvedGrant)
      → (d.ttl ≤ℤ (add_grants chosen d gs).ttl)
        × All
            (λ g. contains g.principals chosen ≡ true → g.max_ttl ≤ℤ (add_grants chosen d gs).ttl)
            gs
  unfolding add_grants
  add_grants-ttl_le d [] = (omega arith, tt)
  add_grants-ttl_le d (g ∷ gs) =
      let (from, rest) = add_grants-ttl_le (add_grant chosen d g) gs in
      (ground (arith, from), ((λ h. ground (arith, from, h)), rest))

  add_grants-ttl_attained :
      (d : Decision) (gs : List ResolvedGrant)
      → ((add_grants chosen d gs).ttl ≡ d.ttl)
        ⊎ Exists
            (λ g.
              (contains g.principals chosen ≡ true) × ((add_grants chosen d gs).ttl ≡ g.max_ttl))
            gs
  unfolding add_grants
  add_grants-ttl_attained d [] = inl refl
  add_grants-ttl_attained d (g ∷ gs) = elim (add_grants-ttl_attained (add_grant chosen d g) gs) [
    | inl e ↦ elim (Bool-cases (contains g.principals chosen && ltb_ℤ d.ttl g.max_ttl)) [
      | inl t ↦ inr (inl (ground arith, ground (arith, e)))
      | inr t ↦ inl (ground (arith, e))
    ]
    | inr more ↦ inr (inr more)
  ]

finish-recording :
    (d : Decision) (b : Bool)
    → d.recording ≡ (if b then "full" else "")
    → (finish d).recording ≡ (if b then "full" else "metadata")
unfolding finish
finish-recording d true e = rw e refl
finish-recording d false e = rw e refl

-- The decision that the grants call for on a server, for an account.
pub record IsUnion (server : ResolvedServer) (grants : List ResolvedGrant) (chosen : String)
    (d : Decision) : Type 0 where
  pub login : d.login ≡ chosen
  pub principals : d.principals ≡ chosen ∷ []
  pub address : d.address ≡ (base_decision server chosen).address
  pub host_key_fingerprint : d.host_key_fingerprint ≡ server.host_key_fingerprint
  pub shell : d.allow_shell ≡ allows (λ g. g.allow_shell) grants chosen
  pub exec : d.allow_exec ≡ allows (λ g. g.allow_exec) grants chosen
  pub sftp : d.allow_sftp ≡ allows (λ g. g.allow_sftp) grants chosen
  pub recording :
      d.recording
      ≡ (if allows (λ g. g.recording == "full") grants chosen then "full" else "metadata")
  pub pty : d.cert_permissions.pty ≡ d.allow_shell
  pub no_port_forwarding : d.cert_permissions.port_forwarding ≡ false
  pub no_agent_forwarding : d.cert_permissions.agent_forwarding ≡ false
  pub no_x11_forwarding : d.cert_permissions.x11_forwarding ≡ false
  pub ttl_nonneg : pos 0 ≤ℤ d.ttl
  pub ttl_longest : All (λ g. contains g.principals chosen ≡ true → g.max_ttl ≤ℤ d.ttl) grants
  pub ttl_attained :
      (d.ttl ≡ pos 0)
      ⊎ Exists (λ g. (contains g.principals chosen ≡ true) × (d.ttl ≡ g.max_ttl)) grants

-- The decision takes the server's address and host key and the account as login and only
-- principal; a capability is allowed exactly when some grant that permits the account allows it; the
-- recording is full exactly when one of those grants asks for it; the lifetime is the longest of
-- theirs, and 0 where none is positive; of the certificate's capabilities only the
-- PTY can be set, and it is set with the shell.
pub compose-IsUnion :
    (server : ResolvedServer) (grants : List ResolvedGrant) (chosen : String)
    → IsUnion server grants chosen (compose server grants chosen)
unfolding compose
compose-IsUnion server grants chosen =
    let base = base_decision server chosen in
    let kept = add_grants-Kept chosen base grants in
    let (from, longest) = add_grants-ttl_le chosen base grants in
    record {
      login = kept.login;
      principals = kept.principals;
      address = kept.address;
      host_key_fingerprint = kept.host_key_fingerprint;
      shell = add_grants-shell chosen base grants;
      exec = add_grants-exec chosen base grants;
      sftp = add_grants-sftp chosen base grants;
      recording =
          finish-recording (add_grants chosen base grants) _
            (add_grants-recording chosen base grants);
      pty = refl;
      no_port_forwarding = refl;
      no_agent_forwarding = refl;
      no_x11_forwarding = refl;
      ttl_nonneg = from;
      ttl_longest = longest;
      ttl_attained = add_grants-ttl_attained chosen base grants;
    }
