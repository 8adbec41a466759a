-- ===== src/Proxy/Registry.antt =====
-- internal/proxy/registry.go: the live sessions of a broker. The mutex makes each operation one step. A
-- Go map is iterated in any order; here it is the order of the list.
use ssh_access.Prelude.{
  ℕ, String, Bool, true, false, ◌==◌, ◌≡◌, List, [], map, lookup, without, put, is_some,
  if◌then◌else◌, lookup-put, lookup-without, arith,
}

pub record SessionInfo : Type 0 where
  pub id : String
  pub subject_type : String
  pub subject_id : String
  pub subject_label : String
  pub host : String
  pub login : String
  pub started : ℕ

abbrev pub SessionRegistry : Type 0
SessionRegistry = List (String × SessionInfo)

-- newSessionRegistry
abbrev pub new_session_registry : SessionRegistry
new_session_registry = []

unfoldable pub add : SessionInfo → SessionRegistry → SessionRegistry
add info r = put info.id info r

unfoldable pub remove : String → SessionRegistry → SessionRegistry
remove id r = without id r

-- list and LiveSessions
unfoldable pub list : SessionRegistry → List SessionInfo
list r = map (λ p. p.1) r

-- kill and Kill: whether the connections of the session were closed. The entry stays until the session
-- unwinds.
unfoldable pub kill : String → SessionRegistry → Bool
kill id r = is_some (lookup id r)

-- A session can be killed from the time it is added until it is removed, whatever happens to the others.
pub kill-add-remove :
    (info : SessionInfo) (id : String) (r : SessionRegistry)
    → (kill id (add info r) ≡ (if info.id == id then true else kill id r))
      × (kill id (remove info.id r) ≡ (if info.id == id then false else kill id r))
unfolding kill add remove
kill-add-remove info id r =
    (ground (arith, lookup-put info.id id info r), ground (arith, lookup-without info.id id r))
