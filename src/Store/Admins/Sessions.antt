-- ===== src/Store/Admins/Sessions.antt =====
-- internal/store/admins.go: when a session token is worth something.
use mathlib.Core.Path.{subst}
use ssh_access.Prelude.{
  ℕ, ◌+◌, ◌≤◌, ◌<◌, String, Bool, true, false, ◌&&◌, not, ◌==◌, eq_iff, ◌≡◌, refl, ap, sym, ◌⊎◌,
  Option, none, some, List, [], ◌∷◌, map, find, if◌then◌else◌, is_some, arith, All, find-All,
  Option-cases, Bool-cases, inl, inr, if_elim,
}
use ssh_access.Store.Admins.{
  Admins, LocalAdmin, SessionRow, AdminSession, named, is_live, is_idle, active_owner, found_row,
  lookup_admin_session, revoke_admin_session, set_local_admin_status,
}

-- What a session stands for: a row of the token that is neither revoked, expired nor idle, and
-- an active admin whose it is.
pub record Backed (token_hash : String) (idle_timeout now : ℕ) (db : Admins) (s : AdminSession)
    : Type 0 where
  pub row : SessionRow
  pub admin : LocalAdmin
  pub of_token : row.token_hash ≡ token_hash
  pub unrevoked : row.revoked_at ≡ none
  pub unexpired : now < row.expires_at
  pub unidle : (idle_timeout ≡ 0) ⊎ (now ≤ row.last_seen_at + idle_timeout)
  pub is_row : find (is_live token_hash now db.local_admins) db.admin_sessions ≡ some row
  pub is_admin : find (active_owner row) db.local_admins ≡ some admin
  pub active : admin.status ≡ "active"
  pub owner : admin.id ≡ row.local_admin_id
  pub username : s.username ≡ admin.username
  pub role : s.role ≡ admin.role

find_passes : {A : Type 0} (p : A → Bool) (xs : List A) (x : A) → find p xs ≡ some x → p x ≡ true
find_passes p [] x h = absurd (ground arith)
find_passes p (y ∷ ys) x h = elim (Bool-cases (p y)) [
  | inl e ↦ subst (λ z. p z ≡ true) (ground arith) e
  | inr e ↦ find_passes p ys x (ground arith)
]

none_of : {A : Type 0} (o : Option A) → not (is_some o) ≡ true → o ≡ none
none_of none h = refl
none_of (some a) h = absurd (ground arith)

-- A token resolves to a session only if it is backed: its row is not revoked, not expired and, where an
-- idle limit is set, was seen within it, and its admin is active, whose name and role the
-- session carries.
pub lookup-Backed :
    (token_hash : String) (idle_timeout now : ℕ) (db : Admins) (s : AdminSession)
    → (lookup_admin_session token_hash idle_timeout now db).0 ≡ some s
    → Backed token_hash idle_timeout now db s
unfolding lookup_admin_session
lookup-Backed token_hash idle_timeout now db s h =
    elim (Option-cases (find (is_live token_hash now db.local_admins) db.admin_sessions)) [
      | inl e ↦ absurd (ground arith)
      | inr (row, e) ↦ elim (Option-cases (find (active_owner row) db.local_admins)) [
        | inl k ↦ absurd (ground arith)
        | inr (a, k) ↦
            let live =
              find_passes (is_live token_hash now db.local_admins) db.admin_sessions row e in
            let owns = find_passes (active_owner row) db.local_admins a k in
            record {
              row = row;
              admin = a;
              of_token = (eq_iff row.token_hash token_hash).0 (ground arith);
              unrevoked = none_of row.revoked_at (ground arith);
              unexpired = ground arith;
              unidle = elim (Bool-cases (is_idle idle_timeout now row)) [
                | inl i ↦ absurd (ground arith)
                | inr i ↦ ground arith
              ];
              is_row = e;
              is_admin = k;
              active = (eq_iff a.status "active").0 (ground arith);
              owner = (eq_iff a.id row.local_admin_id).0 (ground arith);
              username = ground arith;
              role = ground arith;
            }
      ]
    ]

revoke_find :
    (token_hash : String) (now later : ℕ) (admins : List LocalAdmin) (rows : List SessionRow)
    → find (is_live token_hash later admins) (
        map
          (λ s.
            if s.token_hash == token_hash && not (is_some s.revoked_at)
            then (record s { revoked_at = some now })
            else s)
          rows)
      ≡ none
revoke_find token_hash now later admins [] = refl
revoke_find token_hash now later admins (s ∷ rows) =
    ground (arith, revoke_find token_hash now later admins rows)

-- After a logout, the token does not resolve at any later time.
pub revoke-lookup :
    (token_hash : String) (idle_timeout now later : ℕ) (db : Admins)
    → (lookup_admin_session token_hash idle_timeout later
        (revoke_admin_session token_hash now db)).0
      ≡ none
unfolding lookup_admin_session revoke_admin_session
revoke-lookup token_hash idle_timeout now later db =
    ap (λ o. (found_row idle_timeout later o (revoke_admin_session token_hash now db)).0)
      (revoke_find token_hash now later db.local_admins db.admin_sessions)

abbrev IsOff : String → LocalAdmin → Type 0
IsOff username a = a.status ≡ "active" → (a.username == username) ≡ false

set_status-IsOff :
    (username status : String) (admins : List LocalAdmin)
    → (status == "active") ≡ false
    → All
        (IsOff username)
        (map (λ a. if named username a then (record a { status = status }) else a) admins)
set_status-IsOff username status [] off = tt
set_status-IsOff username status (a ∷ admins) off = (
  if_elim (IsOff username) (named username a)
      (λ e k. absurd (ground (arith, eq_iff status "active"))) (λ e k. e),
  set_status-IsOff username status admins off,
)

-- After the status of an admin was set to another one than active, no token resolves to a session of
-- that admin.
pub set_local_admin_status-lookup :
    (username status token_hash : String) (idle_timeout now : ℕ) (db db' : Admins)
    (s : AdminSession)
    → set_local_admin_status username status db ≡ some db'
    → (status == "active") ≡ false
    → (lookup_admin_session token_hash idle_timeout now db').0 ≡ some s
    → (s.username == username) ≡ false
unfolding set_local_admin_status
set_local_admin_status-lookup username status token_hash idle_timeout now db db' s h off found =
    let b = lookup-Backed token_hash idle_timeout now db' s found in
    let updated : db'.local_admins
        ≡ map (λ a. if named username a then (record a { status = status }) else a)
            db.local_admins =
      ground arith in
    let off_all =
      subst (All (IsOff username)) (sym updated)
        (set_status-IsOff username status db.local_admins off) in
    let off_one =
      find-All (IsOff username) (active_owner b.row) db'.local_admins b.admin off_all b.is_admin in
    subst (λ u. (u == username) ≡ false) (sym b.username) (off_one.0 b.active)
