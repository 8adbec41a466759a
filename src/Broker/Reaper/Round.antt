-- ===== src/Broker/Reaper/Round.antt =====
-- cmd/broker/main.go: what one round of the reaper ends.
use ssh_access.Prelude.{
  String, ◌&&◌, ◌==◌, eq_iff, ◌≡◌, refl, ap, ◌∙◌, List, [], ◌∷◌, map, filter, any, contains, arith,
  lookup, without, put, Bool-cases, inl, inr,
}
use ssh_access.Store.Sessions.{sessions_to_terminate}
use ssh_access.Store.Sessions.Doomed.{sessions_to_terminate_iff, must_end}
use ssh_access.Proxy.Registry.{
  SessionInfo, SessionRegistry, new_session_registry, add, remove, list, kill,
}
use ssh_access.Broker.Adapter.{Database}
use ssh_access.Broker.Reaper.{reap}

-- What connections do to the registry.
pub data Use : Type 0 where
  opened : SessionInfo → Use
  closed : String → Use

-- The registry after a history, which has its last use first.
unfoldable pub registry_after : List Use → SessionRegistry
registry_after [] = new_session_registry
registry_after (opened info ∷ earlier) = add info (registry_after earlier)
registry_after (closed id ∷ earlier) = remove id (registry_after earlier)

ids_of : SessionRegistry → List String
ids_of r = map (λ (s : SessionInfo). s.id) (list r)

-- Each session is under its own id.
abbrev IsKeyed : SessionRegistry → Type 0
IsKeyed [] = Unit
IsKeyed ((k, info) ∷ r) = (k ≡ info.id) × IsKeyed r

IsKeyed-without : (k : String) (r : SessionRegistry) → IsKeyed r → IsKeyed (without k r)
unfolding without
IsKeyed-without k [] h = tt
IsKeyed-without k ((j, info) ∷ r) (e, h) = ground (arith, e, IsKeyed-without k r h)

registry_after-IsKeyed : (h : List Use) → IsKeyed (registry_after h)
unfolding registry_after add remove put
registry_after-IsKeyed [] = tt
registry_after-IsKeyed (opened info ∷ h) =
    (refl, IsKeyed-without info.id (registry_after h) (registry_after-IsKeyed h))
registry_after-IsKeyed (closed id ∷ h) =
    IsKeyed-without id (registry_after h) (registry_after-IsKeyed h)

contains-ids_of :
    (id : String) (r : SessionRegistry) → IsKeyed r → contains (ids_of r) id ≡ kill id r
unfolding ids_of list kill lookup contains
contains-ids_of id [] h = refl
contains-ids_of id ((k, info) ∷ r) (e, h) =
    ground (arith, ap (λ j. j == id) e, contains-ids_of id r h)

contains-filter-kill :
    (r : SessionRegistry) (xs : List String) (id : String)
    → contains (filter (λ i. kill i r) xs) id ≡ (contains xs id && kill id r)
unfolding contains
contains-filter-kill r [] id = refl
contains-filter-kill r (x ∷ xs) id = elim (Bool-cases (x == id)) [
  | inl e ↦ ground (arith, contains-filter-kill r xs id, ap (λ i. kill i r) ((eq_iff x id).0 e))
  | inr e ↦ ground (arith, contains-filter-kill r xs id)
]

-- The ids that the round asks for are empty only where nothing is live.
reap-killed :
    (r : SessionRegistry) (db : Database)
    → (reap r db).0 ≡ filter (λ i. kill i r) (sessions_to_terminate (ids_of r) db.tables)
unfolding reap sessions_to_terminate ids_of
reap-killed r db = ground arith

-- Whatever sessions were opened and closed before, a round of the reaper closes the connections of
-- exactly those live sessions that are active in the database and are flagged or belong to a
-- disabled account there.
pub reap_iff :
    (h : List Use) (db : Database) (id : String)
    → contains (reap (registry_after h) db).0 id
      ≡ (kill id (registry_after h) && any (must_end id db.tables) db.tables.sessions)
reap_iff h db id =
    let r = registry_after h in
    ap (λ xs. contains xs id) (reap-killed r db)
    ∙ contains-filter-kill r (sessions_to_terminate (ids_of r) db.tables) id
    ∙ ground (
      arith,
      sessions_to_terminate_iff (ids_of r) db.tables id,
      contains-ids_of id r (registry_after-IsKeyed h),
    )
