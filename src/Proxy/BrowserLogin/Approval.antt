-- ===== src/Proxy/BrowserLogin/Approval.antt =====
-- internal/proxy/server.go: whom the browser login lets in.
use ssh_access.Prelude.{
  ℕ, String, ◌==◌, ◌||◌, ◌≡◌, Option, some, List, [], ◌∷◌, map, Exists, inl, inr, arith,
  Option-cases, Bool-cases,
}
use mathlib.Core.Path.{subst}
use ssh_access.Proxy.Types.{Identity}
use ssh_access.Store.SshLogin.{Table, poll_ssh_login, consume_ssh_login}
use ssh_access.Store.SshLogin.History.{Op, table_after, ApprovedBy}
use ssh_access.Store.SshLogin.Consume.{consume-ApprovedBy}
use ssh_access.Proxy.BrowserLogin.{
  Tick, accepted, keyboard_interactive, await_approval, resolved_outcome,
}

-- A tick by the histories of the tables that it sees.
pub record Moment : Type 0 where
  pub before_poll : List Op
  pub polled_at : ℕ
  pub before_consume : List Op
  pub consumed_at : ℕ

abbrev pub tick_of : Moment → Tick
tick_of m = record {
  polled = table_after m.before_poll;
  polled_at = m.polled_at;
  consumed = table_after m.before_consume;
  consumed_at = m.consumed_at;
}

-- At the moment, the login was approved by the subject, and was consumed as the subject.
abbrev pub IsApproved : String → String → Moment → Type 0
IsApproved id subject m =
    ((t : Table) × (consume_ssh_login id m.consumed_at (table_after m.before_consume)
        ≡ some (subject, t)))
    × ApprovedBy id subject m.before_consume

module _ (resolve : String → Option Identity) (id subject : String) (ident : Identity) where
  resolved_outcome-IsApproved :
      (m : Moment)
      → resolved_outcome resolve (consume_ssh_login id m.consumed_at (table_after m.before_consume))
        ≡ accepted subject ident
      → IsApproved id subject m × (resolve subject ≡ some ident)
  resolved_outcome-IsApproved m h =
      elim (Option-cases (consume_ssh_login id m.consumed_at (table_after m.before_consume))) [
        | inl e ↦ absurd (ground arith)
        | inr ((s, t), e) ↦ elim (Option-cases (resolve s)) [
          | inl k ↦ absurd (ground arith)
          | inr (i, k) ↦
              let same : s ≡ subject = ground arith in
              let same_ident : i ≡ ident = ground arith in
              let e' =
                subst
                  (λ q.
                    consume_ssh_login id m.consumed_at (table_after m.before_consume) ≡ some (q, t))
                  same e in
              (
                ((t, e'), consume-ApprovedBy m.before_consume id subject m.consumed_at t e'),
                subst (λ q. resolve q ≡ some ident) same (ground (arith, k, same_ident)),
              )
        ]
      ]

  await_approval-IsApproved :
      (ms : List Moment)
      → await_approval resolve id (map tick_of ms) ≡ accepted subject ident
      → Exists (IsApproved id subject) ms × (resolve subject ≡ some ident)
  unfolding await_approval
  await_approval-IsApproved [] h = absurd (ground arith)
  await_approval-IsApproved (m ∷ ms) h =
      elim (Option-cases (poll_ssh_login id m.polled_at (table_after m.before_poll))) [
        | inl e ↦ absurd (ground arith)
        | inr ((status, s), e) ↦ elim (Bool-cases (status == "approved")) [
          | inl k ↦ let (a, r) = resolved_outcome-IsApproved m (ground arith) in (inl a, r)
          | inr k ↦ elim (Bool-cases (status == "denied" || status == "expired")) [
            | inl q ↦ absurd (ground arith)
            | inr q ↦ let (a, r) = await_approval-IsApproved ms (ground arith) in (inr a, r)
          ]
        ]
      ]

  -- A connection is let in by the browser only as an identity to which the approving subject resolves,
  -- at a moment at which this login was consumed as this subject, after the subject approved
  -- it by its code while it was pending and unexpired.
  pub keyboard_interactive-IsApproved :
      (ms : List Moment)
      → keyboard_interactive resolve (some id) (map tick_of ms) ≡ accepted subject ident
      → Exists (IsApproved id subject) ms × (resolve subject ≡ some ident)
  unfolding keyboard_interactive
  keyboard_interactive-IsApproved ms h = await_approval-IsApproved ms h
