-- ===== src/Api/GrantHandlers/Seconds.antt =====
-- internal/api/handlers.go and internal/store/repositories.go: the lifetime of a grant from the seconds of
-- the body to those of its row.
use ssh_access.Prelude.{arith, ℕ, ◌*◌, ◌≤◌, ◌<◌, ◌≡◌, ap, ◌∙◌}
use ssh_access.Prelude.Int.{pos}
use ssh_access.Store.Grants.{second, ttl_seconds}
use ssh_access.Api.GrantHandlers.{wrap_int64, seconds_duration}

-- Up to the seconds that an int64 holds in nanoseconds, nothing wraps around.
seconds_duration-exact : (n : ℕ) → n ≤ 9223372036 → seconds_duration (pos n) ≡ pos (n * second)
unfolding seconds_duration wrap_int64
seconds_duration-exact n h = ground arith

ttl_seconds-exact : (n : ℕ) → 0 < n → ttl_seconds (pos (n * second)) ≡ n
unfolding ttl_seconds
ttl_seconds-exact n h = ground arith

pub ttl_seconds-seconds_duration :
    (n : ℕ) → 0 < n → n ≤ 9223372036 → ttl_seconds (seconds_duration (pos n)) ≡ n
ttl_seconds-seconds_duration n h bound =
    ap ttl_seconds (seconds_duration-exact n bound) ∙ ttl_seconds-exact n h
