-- ===== src/RateLimit/Cleanup.antt =====
-- The cleanup goroutine does not change any answer.
use starfire_agent_team.Prelude.{ℕ, ◌≤◌, ◌≡◌, refl, String, Option, none, some, arith, eq_refl}
use starfire_agent_team.RateLimit.{Bucket, RateLimiter, middleware, cleanup, reset, bucket_of}

-- The bucket that a request works on is the same with and without an earlier cleanup, where the
-- window is at most ten minutes.
reset-cleanup :
    (swept now : ℕ) (ip : String) (rl : RateLimiter) (o : Option Bucket)
    → rl.buckets ip ≡ o
    → rl.interval ≤ 600
    → swept ≤ now
    → reset now (cleanup swept rl) (bucket_of now ip (cleanup swept rl))
      ≡ reset now rl (bucket_of now ip rl)
unfolding reset bucket_of cleanup
reset-cleanup swept now ip rl none e short later = ground arith
reset-cleanup swept now ip rl (some b) e short later = ground arith

-- Where the window is at most ten minutes, a request gets the same answer, and leaves the same
-- bucket to its client, whether or not the cleanup ran before it.
pub middleware-cleanup :
    (swept now : ℕ) (ip : String) (rl : RateLimiter)
    → rl.interval ≤ 600
    → swept ≤ now
    → ((middleware now ip (cleanup swept rl)).1 ≡ (middleware now ip rl).1)
      × ((middleware now ip (cleanup swept rl)).0.buckets ip ≡ (middleware now ip rl).0.buckets ip)
unfolding middleware
middleware-cleanup swept now ip rl short later = (
  ground (arith, eq_refl ip, reset-cleanup swept now ip rl (rl.buckets ip) refl short later),
  ground (arith, eq_refl ip, reset-cleanup swept now ip rl (rl.buckets ip) refl short later),
)
