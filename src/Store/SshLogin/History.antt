-- ===== src/Store/SshLogin/History.antt =====
-- internal/store/ssh_login.go: sequences of the statements that change the table.
use ssh_access.Prelude.{
  ℕ, String, true, false, ◌==◌, ◌≡◌, ◌⊎◌, Option, none, some, List, [], ◌∷◌, any, ◌&&◌,
}
use ssh_access.Store.SshLogin.{
  Table, create_ssh_login_request, approve_ssh_login, deny_ssh_login, consume_ssh_login,
  delete_expired_ssh_logins, awaits,
}

pub data Op : Type 0 where
  -- id, hash, source, target, expiry, time
  create : String → String → String → String → ℕ → ℕ → Op
  -- hash, subject, time
  approve deny : String → String → ℕ → Op
  -- id, time
  consume : String → ℕ → Op
  -- cutoff
  clean : ℕ → Op

-- A statement that fails leaves the table as it was.
abbrev pub or_same : Option Table → Table → Table
or_same none t = t
or_same (some t') t = t'

abbrev pub second_or_same : Option (String × Table) → Table → Table
second_or_same none t = t
second_or_same (some (s, t')) t = t'

unfoldable pub step : Op → Table → Table
step (create id hash ip target expires now) t =
    second_or_same (create_ssh_login_request id hash ip target expires now t) t
step (approve hash subject now) t = or_same (approve_ssh_login hash subject now t) t
step (deny hash subject now) t = or_same (deny_ssh_login hash subject now t) t
step (consume id now) t = second_or_same (consume_ssh_login id now t) t
step (clean cutoff) t = (delete_expired_ssh_logins cutoff t).1

-- The table after a history, which has its last statement first, on an empty table.
unfoldable pub table_after : List Op → Table
table_after [] = []
table_after (op ∷ earlier) = step op (table_after earlier)

-- In the history, `subject` approved the request `id` by its code while it was pending and unexpired.
abbrev pub ApprovedBy : String → String → List Op → Type 0
ApprovedBy id subject [] = ⊥
ApprovedBy id subject (op ∷ earlier) =
    ((hash : String) × (now : ℕ) × (op ≡ approve hash subject now)
      × (any (λ r. r.id == id && awaits hash now r) (table_after earlier) ≡ true))
    ⊎ ApprovedBy id subject earlier

-- No statement of the list creates the id.
abbrev pub NotCreated : String → List Op → Type 0
NotCreated id [] = Unit
NotCreated id (create j hash ip target expires now ∷ ops) = ((j == id) ≡ false) × NotCreated id ops
NotCreated id (op ∷ ops) = NotCreated id ops
