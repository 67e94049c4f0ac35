-- ===== src/RateLimit.antt =====
-- middleware/ratelimit.go: a token bucket for each client IP. Times are seconds; the readings of
-- the clock under one hold of the lock are taken as one.
pub mod Window
pub mod Cleanup
mod Tests
use starfire_agent_team.Prelude.{
  ℕ, ◌+◌, ◌-◌, String, Bool, true, false, Option, none, some, List, [], ◌∷◌, if◌then◌else◌, ◌==◌,
  leb, ltb, eqb,
}

pub record Bucket : Type 0 where
  pub tokens : ℕ
  pub last_reset : ℕ

pub record RateLimiter : Type 0 where
  pub buckets : String → Option Bucket
  pub rate : ℕ
  pub interval : ℕ

pub new_rate_limiter : ℕ → ℕ → RateLimiter
new_rate_limiter rate interval = record { buckets = λ ip. none; rate = rate; interval = interval }

-- The bucket that the request works on, made when there is none.
unfoldable pub bucket_of : ℕ → String → RateLimiter → Bucket
bucket_of now ip rl = elim (rl.buckets ip) [
  | none ↦ record { tokens = rl.rate; last_reset = now }
  | some b ↦ b
]

-- Reset tokens if interval has passed
unfoldable pub reset : ℕ → RateLimiter → Bucket → Bucket
reset now rl b =
    if leb rl.interval (now - b.last_reset)
    then record { tokens = rl.rate; last_reset = now }
    else b

abbrev store : String → Bucket → RateLimiter → RateLimiter
store ip b rl = record rl { buckets = λ k. if ip == k then some b else rl.buckets k }

spend : String → Bucket → RateLimiter → RateLimiter × Bool
spend ip b rl =
    if leb b.tokens 0
    then (store ip b rl, false)
    else (store ip (record b { tokens = b.tokens - 1 }) rl, true)

-- true where the request goes on to the next handler, false for 429
unfoldable pub middleware : ℕ → String → RateLimiter → RateLimiter × Bool
unfolding bucket_of reset spend
middleware now ip rl = spend ip (reset now rl (bucket_of now ip rl)) rl

abbrev expired : ℕ → Option Bucket → Option Bucket
expired now none = none
expired now (some b) = if ltb (b.last_reset + 600) now then none else some b

-- A tick of the cleanup goroutine: buckets that were last reset over ten minutes ago go.
unfoldable pub cleanup : ℕ → RateLimiter → RateLimiter
cleanup now rl = record rl { buckets = λ ip. expired now (rl.buckets ip) }

-- A sequence of requests, each with its time and IP: the limiter after them, and how many of those
-- from one IP were let through.
unfoldable pub serve : RateLimiter → List (ℕ × String) → RateLimiter
serve rl [] = rl
serve rl ((now, ip) ∷ rs) = serve (middleware now ip rl).0 rs

abbrev one_if : Bool → ℕ
one_if true = 1
one_if false = 0

unfoldable pub admitted : String → RateLimiter → List (ℕ × String) → ℕ
admitted k rl [] = 0
admitted k rl ((now, ip) ∷ rs) =
    let (rl', passed) = middleware now ip rl in
    let rest = admitted k rl' rs in (if ip == k then one_if passed + rest else rest)
