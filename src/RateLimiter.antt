-- ===== src/RateLimiter.antt =====
-- `RateLimiter` of internal/server/middleware.go: requests per source address in a fixed window.
-- Times are in nanoseconds; the clock's reading is an argument.
pub mod Window
use rdw.Common.{
  ltb, leb, if◌then◌else◌, Dict, lookup, insert, Text, ℕ, ◌+◌, Bool, true, false, Option, none,
  some, [],
}

abbrev pub rate_limit_requests : ℕ
rate_limit_requests = 10

abbrev rate_limit_window : ℕ
rate_limit_window = 60000000000

pub record RateBucket : Type 0 where
  pub count : ℕ
  pub reset_at : ℕ

abbrev pub RateLimiter : Type 0
RateLimiter = Dict RateBucket

abbrev pub new_rate_limiter : RateLimiter
new_rate_limiter = []

abbrev pub new_bucket : ℕ → RateBucket
new_bucket now = record { count = 1; reset_at = now + rate_limit_window }

abbrev allow_in : Text → ℕ → Option RateBucket → RateLimiter → RateLimiter × Bool
allow_in ip now none rl = (insert ip (new_bucket now) rl, true)
allow_in ip now (some b) rl =
    if ltb b.reset_at now
    then (insert ip (new_bucket now) rl, true)
    else if leb rate_limit_requests b.count
    then (rl, false)
    else (insert ip (record b { count = b.count + 1 }) rl, true)

pub allow : Text → ℕ → RateLimiter → RateLimiter × Bool
allow ip now rl = allow_in ip now (lookup ip rl) rl
