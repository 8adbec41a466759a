-- ===== src/Store/Sessions/Doomed.antt =====
-- internal/store/sessions_terminate.go: which sessions the query returns.
use ssh_access.Prelude.{
  String, Bool, true, false, ◌&&◌, ◌||◌, ◌==◌, eq_iff, ◌≡◌, refl, ap, ◌∙◌, List, [], ◌∷◌, map, any,
  filter, contains, is_some, arith, inl, inr, Bool-cases,
}
use ssh_access.Store.Sessions.{
  Session, Tables, sessions_to_terminate, is_doomed, disabled_owner, is_active,
}

contains-map-filter :
    (q : Session → Bool) (rows : List Session) (id : String)
    → contains (map (λ (s : Session). s.id) (filter q rows)) id
      ≡ any (λ (s : Session). s.id == id && q s) rows
unfolding contains
contains-map-filter q [] id = refl
contains-map-filter q (s ∷ rows) id = ground (arith, contains-map-filter q rows id)

-- The session has this id, is active, and is flagged or belongs to a disabled account.
abbrev pub must_end : String → Tables → Session → Bool
must_end id db s =
    is_active id s
    && (is_some s.terminate_requested
        || disabled_owner "user" db.users s
        || disabled_owner "service_account" db.service_accounts s)

any-same :
    (p q : Session → Bool) (rows : List Session)
    → ((s : Session) → p s ≡ q s)
    → any p rows ≡ any q rows
any-same p q [] h = refl
any-same p q (s ∷ rows) h = ground (arith, h s, any-same p q rows h)

any-false : (rows : List Session) → any (λ s. false) rows ≡ false
any-false [] = refl
any-false (s ∷ rows) = ground (arith, any-false rows)

doomed_row :
    (ids : List String) (db : Tables) (id : String) (s : Session)
    → (s.id == id && is_doomed ids db s) ≡ (contains ids id && must_end id db s)
doomed_row ids db id s = elim (Bool-cases (s.id == id)) [
  | inl e ↦ ground (arith, ap (contains ids) ((eq_iff s.id id).0 e))
  | inr e ↦ ground arith
]

any-and :
    (b : Bool) (p : Session → Bool) (rows : List Session)
    → any (λ s. b && p s) rows ≡ (b && any p rows)
any-and true p rows = refl
any-and false p rows = any-false rows

-- The query returns an id exactly when it is one of those asked for and a session of this id is active
-- and is flagged or belongs to a disabled account.
pub sessions_to_terminate_iff :
    (ids : List String) (db : Tables) (id : String)
    → contains (sessions_to_terminate ids db) id
      ≡ (contains ids id && any (must_end id db) db.sessions)
unfolding sessions_to_terminate contains
sessions_to_terminate_iff [] db id = refl
sessions_to_terminate_iff (i ∷ ids) db id =
    contains-map-filter (is_doomed (i ∷ ids) db) db.sessions id
    ∙ any-same _ _ db.sessions (doomed_row (i ∷ ids) db id)
    ∙ any-and (contains (i ∷ ids) id) (must_end id db) db.sessions
