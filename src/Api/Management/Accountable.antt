-- ===== src/Api/Management/Accountable.antt =====
-- internal/api: who can change what is managed, and what the audit log says of it.
use ssh_access.Prelude.{◌≤◌, ◌≡◌, ◌⊎◌, String, true, false, Option, some, [], ◌∷◌, ◌++◌, ◌+++◌}
use ssh_access.Auth.Rbac.{Principal, can}
use ssh_access.Api.Db.{Db, ApiCalls, Handled, write_error}
use ssh_access.Api.Management.{
  Request, permission_of, handle, denied_event, guarded, mutation_event,
}

-- The request was served for a principal with the permission of the route, reported success, and its
-- last event names the principal, the method and the path.
pub record IsServed (calls : ApiCalls) (p : Option Principal) (r : Request) (db : Db) (h : Handled)
    : Type 0 where
  pub principal : Principal
  pub known : p ≡ some principal
  pub permitted : can principal (permission_of r) ≡ true
  pub success : (h.response.status ≡ 200) ⊎ (h.response.status ≡ 201)
  pub tables : h.db ≡ (handle calls principal r db).db
  pub events :
      h.events
      ≡ (handle calls principal r db).events
        ++ mutation_event (some principal) r h.response.status ∷ []

-- An error that changes nothing; at most the denial of a known principal is recorded.
abbrev pub IsRejected : String → Option Principal → Request → Db → Handled → Type 0
IsRejected ip p r db h =
    (400 ≤ h.response.status)
    × (h.db ≡ db)
    × ((h.events ≡ [])
        ⊎ ((q : Principal) × (p ≡ some q)
            × (can q (permission_of r) ≡ false)
            × (h.events ≡ denied_event ip r q.subject (permission_of r) ∷ [])))

module _ (calls : ApiCalls) (auth_url ip : String) (r : Request) (db : Db) where
  -- What the guard makes of a request.
  Admitted : Option Principal → Type 0
  Admitted p =
      (q : Principal) × (p ≡ some q)
      × (can q (permission_of r) ≡ true)
      × (guarded calls auth_url ip p r db ≡ handle calls q r db)

  abbrev denied : Principal → Handled
  denied q = record {
    response = write_error 403 ("forbidden: requires " +++ permission_of r);
    db = db;
    events = denied_event ip r q.subject (permission_of r) ∷ [];
  }
