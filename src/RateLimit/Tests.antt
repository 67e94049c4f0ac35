-- ===== src/RateLimit/Tests.antt =====
-- The limiter with two requests a minute.
use starfire_agent_team.Prelude.{ℕ, String, false, ◌≡◌, refl, some, List, [], ◌∷◌, arith}
use Prim.Native.Nat.{min}
use starfire_agent_team.RateLimit.{
  Bucket, RateLimiter, new_rate_limiter, middleware, cleanup, admitted,
}
use starfire_agent_team.RateLimit.Window.{requests_of, admitted_in_window}

abbrev fresh_bucket : Bucket
fresh_bucket = record { tokens = 2; last_reset = 100 }

abbrev two_a_minute : RateLimiter
two_a_minute = record { buckets = λ ip. some fresh_bucket; rate = 2; interval = 60 }

abbrev requests : List (ℕ × String)
requests = (101, "a") ∷ (102, "b") ∷ (103, "a") ∷ (104, "a") ∷ []

admitted_in_window_example : admitted "a" two_a_minute requests ≡ min 2 (requests_of "a" requests)
admitted_in_window_example =
    admitted_in_window "a" two_a_minute fresh_bucket requests refl (ground arith)
      (ground arith, (ground arith, (ground arith, (ground arith, tt))))

two_pass : admitted "a" two_a_minute requests ≡ 2
unfolding admitted middleware starfire_agent_team.RateLimit.bucket_of
    starfire_agent_team.RateLimit.reset
two_pass = refl

first_request : (middleware 7 "a" (new_rate_limiter 0 60)).1 ≡ false
unfolding middleware new_rate_limiter starfire_agent_team.RateLimit.bucket_of
    starfire_agent_team.RateLimit.reset
first_request = refl
