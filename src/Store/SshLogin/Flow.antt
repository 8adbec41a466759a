-- ===== src/Store/SshLogin/Flow.antt =====
-- internal/store/ssh_login.go: the course of a login that is approved in time.
use ssh_access.Prelude.{ℕ, ◌<◌, String, eq_refl, ◌≡◌, none, some, ◌∷◌, map, arith}
use ssh_access.Store.SshLogin.{
  Table, SshLoginRequest, create_ssh_login_request, approve_ssh_login, consume_ssh_login,
  poll_ssh_login, decide_ssh_login, decide_row, consume_row, approved, pending,
}

-- A request that was created and that `subject` approves before it expires is reported as approved by
-- `subject`, can be consumed as `subject` until it expires, and is then reported as consumed.
pub approve_then_consume :
    (id hash ip target subject i : String) (expires created at_poll at_approval at_use later : ℕ)
    (t t₁ : Table)
    → create_ssh_login_request id hash ip target expires created t ≡ some (i, t₁)
    → at_approval < expires
    → at_use < expires
    → (t₂ : Table) × (t₃ : Table) × (approve_ssh_login hash subject at_approval t₁ ≡ some t₂)
      × (poll_ssh_login id at_poll t₂ ≡ some ("approved", subject))
      × (consume_ssh_login id at_use t₂ ≡ some (subject, t₃))
      × (poll_ssh_login id later t₃ ≡ some ("consumed", subject))
unfolding create_ssh_login_request approve_ssh_login decide_ssh_login consume_ssh_login
    poll_ssh_login
approve_then_consume id hash ip target subject i expires created at_poll at_approval at_use later t
      t₁ e a u =
    let row : SshLoginRequest = record {
      id = id;
      code_hash = hash;
      source_ip = ip;
      requested_target = target;
      status = pending;
      entra_subject = none;
      created_at = created;
      expires_at = expires;
      approved_at = none;
      consumed_at = none;
    } in
    let f = decide_row hash subject approved at_approval in
    let made : t₁ ≡ row ∷ t = ground arith in
    let t₂ = map f (row ∷ t) in
    (
      t₂,
      map (consume_row id at_use) t₂,
      ground (arith, made, eq_refl hash),
      ground (arith, eq_refl hash, eq_refl id),
      ground (arith, eq_refl hash, eq_refl id),
      ground (arith, eq_refl hash, eq_refl id),
    )
