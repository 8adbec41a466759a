-- ===== src/Proxy/BrowserLogin.antt =====
-- internal/proxy/server.go: keyboardInteractive, which waits for the approval of a login in the browser. A
-- tick of the timer is what the store answers at it; the ticks end where the time limit is reached.
pub mod Approval
use ssh_access.Prelude.{
  ℕ, String, Bool, true, false, ◌==◌, ◌||◌, Option, none, some, List, [], ◌∷◌, if◌then◌else◌,
}
use ssh_access.Proxy.Types.{Identity}
use ssh_access.Store.SshLogin.{Table, poll_ssh_login, consume_ssh_login}

-- The tables and times of a poll and of the consumption that may follow it.
pub record Tick : Type 0 where
  pub polled : Table
  pub polled_at : ℕ
  pub consumed : Table
  pub consumed_at : ℕ

pub data Outcome : Type 0 where
  -- the connection is let in as the identity
  accepted : String → Identity → Outcome
  -- ErrUnauthorized
  unauthorized : Outcome

module _ (resolve : String → Option Identity) where
  -- Resolve of the subject that Consume gave
  abbrev pub resolved_outcome : Option (String × Table) → Outcome
  resolved_outcome none = unauthorized
  resolved_outcome (some (subject, t)) = elim (resolve subject) [
    | none ↦ unauthorized
    | some ident ↦ accepted subject ident
  ]

  abbrev on_status : Option (String × String) → Outcome → Outcome → Outcome
  on_status none consumed again = unauthorized
  on_status (some (status, subject)) consumed again =
      if status == "approved"
      then consumed
      else if status == "denied" || status == "expired"
      then unauthorized
      else again

  -- The loop of keyboardInteractive for the login `id`.
  unfoldable pub await_approval : String → List Tick → Outcome
  await_approval id [] = unauthorized
  await_approval id (k ∷ ticks) =
      on_status (poll_ssh_login id k.polled_at k.polled)
        (resolved_outcome (consume_ssh_login id k.consumed_at k.consumed)) (await_approval id ticks)

  -- keyboardInteractive, with the id that Begin gives; an error of Begin is `none`.
  unfoldable pub keyboard_interactive : Option String → List Tick → Outcome
  unfolding await_approval
  keyboard_interactive none ticks = unauthorized
  keyboard_interactive (some id) ticks = await_approval id ticks
