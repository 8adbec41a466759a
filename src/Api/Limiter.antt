-- ===== src/Api/Limiter.antt =====
-- internal/api/auth_handlers.go: the limiter of the break-glass login. Times are in nanoseconds. The
-- mutex makes a call one step.
pub mod Window
use ssh_access.Prelude.{
  ℕ, ◌+◌, String, Bool, true, false, Option, none, some, List, [], ◌∷◌, ◌++◌, length, filter,
  lookup, put, if◌then◌else◌, ltb,
}

pub record LoginLimiter : Type 0 where
  pub max : ℕ
  pub window : ℕ
  pub hits : List (String × List ℕ)

-- newLoginLimiter
unfoldable pub new_login_limiter : ℕ → ℕ → LoginLimiter
new_login_limiter max window = record { max = max; window = window; hits = [] }

-- A key that is not in the map has the nil slice.
abbrev pub times_of : Option (List ℕ) → List ℕ
times_of none = []
times_of (some ts) = ts

-- t.After(now.Add(-window))
abbrev pub after_cutoff : ℕ → ℕ → ℕ → Bool
after_cutoff window now t = ltb now (t + window)

-- allow, at the time `now`
unfoldable pub allow : String → ℕ → LoginLimiter → Bool × LoginLimiter
allow key now l =
    let kept = filter (after_cutoff l.window now) (times_of (lookup key l.hits)) in
    if ltb (length kept) l.max
    then (true, record l { hits = put key (kept ++ now ∷ []) l.hits })
    else (false, record l { hits = put key kept l.hits })
