-- ===== src/Samples/BrowserLogins.antt =====
-- Runs of the browser logins of internal/store/ssh_login.go and internal/proxy/server.go.
use ssh_access.Prelude.{
  String, ◌≡◌, refl, some, none, Option, List, [], ◌∷◌, ◌++◌, map, Exists, ◌==◌, if◌then◌else◌,
}
use ssh_access.Proxy.Types.{Identity}
use ssh_access.Proxy.BrowserLogin.{keyboard_interactive, await_approval, accepted}
use ssh_access.Proxy.BrowserLogin.Approval.{
  Moment, tick_of, IsApproved, keyboard_interactive-IsApproved,
}
use ssh_access.Store.SshLogin.{
  Table, create_ssh_login_request, approve_ssh_login, consume_ssh_login, poll_ssh_login,
  decide_ssh_login,
}
use ssh_access.Store.SshLogin.History.{
  step, Op, create, approve, consume, clean, table_after, ApprovedBy,
}
use ssh_access.Store.SshLogin.Consume.{consume-ApprovedBy}
use ssh_access.Store.SshLogin.Once.{consume_once}

-- The last statement comes first.
abbrev approved_history : List Op
approved_history =
    approve "h1" "alice@example.com" 120 ∷ create "r1" "h1" "10.0.0.9" "alice+web01" 200 100 ∷ []

abbrev consumed_table : Option (String × Table) → Table
consumed_table none = []
consumed_table (some (s, t)) = t

abbrev table : Table
table = consumed_table (consume_ssh_login "r1" 150 (table_after approved_history))

consumes :
    consume_ssh_login "r1" 150 (table_after approved_history) ≡ some ("alice@example.com", table)
unfolding table_after step create_ssh_login_request approve_ssh_login consume_ssh_login
    decide_ssh_login
consumes = refl

consume-ApprovedBy_example : ApprovedBy "r1" "alice@example.com" approved_history
consume-ApprovedBy_example =
    consume-ApprovedBy approved_history "r1" "alice@example.com" 150 table consumes

consume_once_example :
    consume_ssh_login "r1" 160 (
      table_after (
        (clean 10 ∷ approve "h1" "eve@example.com" 155 ∷ [])
        ++ consume "r1" 150 ∷ approved_history))
    ≡ none
consume_once_example =
    consume_once (clean 10 ∷ approve "h1" "eve@example.com" 155 ∷ []) approved_history "r1"
      "alice@example.com" 150 160 table consumes tt

abbrev created_table : Table
created_table = table_after (create "r1" "h1" "10.0.0.9" "alice+web01" 200 100 ∷ [])

creates :
    create_ssh_login_request "r1" "h1" "10.0.0.9" "alice+web01" 200 100 []
    ≡ some ("r1", created_table)
unfolding table_after step create_ssh_login_request
creates = refl

abbrev alice : Identity
alice = record { subject = "user"; id = "u1"; label = "alice" }

abbrev resolve : String → Option Identity
resolve s = if s == "alice@example.com" then some alice else none

-- At the first moment the login is pending, at the second it was approved.
abbrev moments : List Moment
moments =
    record {
      before_poll = create "r1" "h1" "10.0.0.9" "alice+web01" 200 100 ∷ [];
      polled_at = 110;
      before_consume = [];
      consumed_at = 110;
    }
    ∷ record {
      before_poll = approved_history;
      polled_at = 140;
      before_consume = approved_history;
      consumed_at = 150;
    }
    ∷ []

lets_in :
    keyboard_interactive resolve (some "r1") (map tick_of moments)
    ≡ accepted "alice@example.com" alice
unfolding keyboard_interactive await_approval table_after step create_ssh_login_request
    approve_ssh_login consume_ssh_login decide_ssh_login poll_ssh_login
lets_in = refl

keyboard_interactive-IsApproved_example :
    Exists (IsApproved "r1" "alice@example.com") moments
    × (resolve "alice@example.com" ≡ some alice)
keyboard_interactive-IsApproved_example =
    keyboard_interactive-IsApproved resolve "r1" "alice@example.com" alice moments lets_in
