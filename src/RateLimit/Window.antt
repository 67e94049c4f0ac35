-- ===== src/RateLimit/Window.antt =====
-- How many requests of one client pass within one window of the limiter.
use starfire_agent_team.Prelude.{
  ℕ, ◌+◌, ◌-◌, ◌≤◌, ◌<◌, ◌≡◌, String, true, false, some, List, [], ◌∷◌, arith, if◌then◌else◌, ◌==◌,
  ◌∙◌, leb, eq_iff, Bool-cases, inl, inr,
}
use Prim.Native.Nat.{min}
use starfire_agent_team.RateLimit.{Bucket, RateLimiter, middleware, admitted}

-- Every request comes before the time.
abbrev pub AllBefore : ℕ → List (ℕ × String) → Type 0
AllBefore t [] = Unit {0}
AllBefore t ((now, ip) ∷ rs) = (now < t) × AllBefore t rs

-- How many requests come from the client.
unfoldable pub requests_of : String → List (ℕ × String) → ℕ
requests_of k [] = 0
requests_of k ((now, ip) ∷ rs) = let rest = requests_of k rs in if ip == k then rest + 1 else rest

module _ (now : ℕ) (ip : String) (rl : RateLimiter) where
  interval-middleware : (middleware now ip rl).0.interval ≡ rl.interval
  unfolding middleware
  interval-middleware = ground arith

  buckets-middleware_ne :
      (k : String) → (ip == k) ≡ false → (middleware now ip rl).0.buckets k ≡ rl.buckets k
  unfolding middleware
  buckets-middleware_ne k h = ground arith

  module _ (k : String) (b : Bucket) (e : rl.buckets k ≡ some b) (same : (ip == k) ≡ true) where
    middleware_in_window :
        0 < rl.interval
        → now < b.last_reset + rl.interval
        → ((middleware now ip rl).0.buckets k ≡ some (record b { tokens = b.tokens - 1 }))
          × ((middleware now ip rl).1 ≡ leb 1 b.tokens)
    unfolding middleware
    middleware_in_window pos h = (ground (arith, eq_iff ip k), ground (arith, eq_iff ip k))

admitted_until :
    (k : String) (rl : RateLimiter) (b : Bucket) (t : ℕ) (rs : List (ℕ × String))
    → rl.buckets k ≡ some b
    → 0 < rl.interval
    → t ≤ b.last_reset + rl.interval
    → AllBefore t rs
    → admitted k rl rs ≡ min b.tokens (requests_of k rs)
unfolding admitted requests_of
admitted_until k rl b t [] e pos le h = omega arith
admitted_until k rl b t ((now, ip) ∷ rs) e pos le h = elim (Bool-cases (ip == k)) [
  | inl same ↦
      let (stored, passed) = middleware_in_window now ip rl k b e same pos (omega arith) in
      rw (same, passed)
        (ground (
          arith,
          interval-middleware now ip rl,
          admitted_until k (middleware now ip rl).0 (record b { tokens = b.tokens - 1 }) t rs stored
              (rw interval-middleware pos) (rw interval-middleware le) h.1,
        ))
  | inr other ↦ rw other (
      admitted_until k (middleware now ip rl).0 b t rs (buckets-middleware_ne now ip rl k other ∙ e)
        (rw interval-middleware pos) (rw interval-middleware le) h.1)
]

-- Within the window of a client's bucket exactly its tokens are spent, one for each of its requests
-- until none is left, whatever the other clients do.
pub admitted_in_window :
    (k : String) (rl : RateLimiter) (b : Bucket) (rs : List (ℕ × String))
    → rl.buckets k ≡ some b
    → 0 < rl.interval
    → AllBefore (b.last_reset + rl.interval) rs
    → admitted k rl rs ≡ min b.tokens (requests_of k rs)
admitted_in_window k rl b rs e pos h = admitted_until k rl b _ rs e pos (omega arith) h
