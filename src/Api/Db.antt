-- ===== src/Api/Db.antt =====
-- internal/api/json.go: responses and the mapping of errors of the store, with the tables that the handlers
-- change. What a handler needs of other software is the record ApiCalls.
use ssh_access.Prelude.{ℕ, String, Option, none, some, List, [], ◌∷◌}
use ssh_access.Prelude.Int.{ℤ}
use ssh_access.Store.Keys.{Accounts}
use ssh_access.Store.Grants.{GrantRow}
use ssh_access.Store.Sessions.{Session}
use ssh_access.Store.Servers.{
  StoreError, StoreResult, ok, err, not_found, conflict, failed, ServerRow, Members, GroupRow,
}
use ssh_access.Store.Audit.{AuditEvent}

pub record Db : Type 0 where
  pub accounts : Accounts
  pub servers : List ServerRow
  pub user_groups : List GroupRow
  pub server_groups : List GroupRow
  pub user_group_members : Members
  pub server_group_members : Members
  pub grants : List GrantRow
  pub sessions : List Session

-- The clock, the id that the database gives to a new row, ssh.ParseAuthorizedKey with the marshaled line
-- of the key, time.Parse with the two layouts, AddDate in days and the format of a date. Times are in
-- nanoseconds.
pub record ApiCalls : Type 0 where
  pub now : ℕ
  pub new_id : String
  pub parse_authorized_key : String → Option String
  pub parse_date : String → Option ℕ
  pub parse_rfc3339 : String → Option ℕ
  pub add_days : ℤ → ℕ → ℕ
  pub format_date : ℕ → String
  pub review_interval_days : ℤ

-- The status and the JSON object.
pub record Response : Type 0 where
  pub status : ℕ
  pub body : List (String × String)

-- writeJSON
unfoldable pub write_json : ℕ → List (String × String) → Response
write_json status body = record { status = status; body = body }

-- writeError
unfoldable pub write_error : ℕ → String → Response
unfolding write_json
write_error status msg = write_json status (("error", msg) ∷ [])

-- writeStoreError
unfoldable pub write_store_error : StoreError → Response
unfolding write_error
write_store_error not_found = write_error 404 "not found"
write_store_error conflict = write_error 409 "already exists"
write_store_error failed = write_error 500 "internal error"

-- What a handler leaves: the response, the tables and the events that it hands to AppendAudit.
pub record Handled : Type 0 where
  pub response : Response
  pub db : Db
  pub events : List AuditEvent

-- A handler that returns before it changes anything.
unfoldable pub refuse : ℕ → String → Db → Handled
unfolding write_error
refuse status msg db = record { response = write_error status msg; db = db; events = [] }

-- A handler's last step: its call of the store, and the response where that succeeds.
unfoldable pub answer : StoreResult Db → ℕ → List (String × String) → List AuditEvent → Db → Handled
unfolding write_json write_store_error
answer (ok db') status body events db = record {
  response = write_json status body;
  db = db';
  events = events;
}
answer (err e) status body events db = record {
  response = write_store_error e;
  db = db;
  events = [];
}

-- A statement on one table.
abbrev pub within : {T : Type 0} → StoreResult T → (T → Db) → StoreResult Db
within (ok t) f = ok (f t)
within (err e) f = err e

abbrev pub required : {T : Type 0} → Option T → StoreError → StoreResult T
required none e = err e
required (some t) e = ok t
