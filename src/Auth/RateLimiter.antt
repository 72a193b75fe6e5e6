-- ===== src/Auth/RateLimiter.antt =====
-- `RateLimiter` of backend/src/infrastructure/cache/rate_limiter.rs, over Redis as a parameter.
use Prim.Native.String.{◌++◌}
use kitaza.Common.{ℕ, String, Bool, Option, none, some, ltb, ◌==◌, if◌then◌else◌, not}

-- The commands that the limiter uses. `incr` gives `none` where Redis fails.
pub record Redis (S : Type 0) : Type 0 where
  pub connected : S → Bool
  pub incr : String → S → Option ℕ × S
  pub expire : String → ℕ → S → S
  pub del : String → S → S

pub record RateLimiter (S : Type 0) : Type 0 where
  pub redis : Redis S
  pub limit : ℕ
  pub window_seconds : ℕ

pub data RateLimitVerdict : Type 0 where
  allowed exceeded : RateLimitVerdict

abbrev pub key_of : String → String
key_of bucket = "kitaza:ratelimit:" ++ bucket

module _ {S : Type 0} (limiter : RateLimiter S) where
  -- `check`
  unfoldable pub check : String → S → RateLimitVerdict × S
  check bucket s =
      if not (limiter.redis.connected s)
      then (allowed, s)
      else let (attempts, s') = limiter.redis.incr (key_of bucket) s in
        elim attempts [
          | none ↦ (allowed, s')
          | some count ↦
              if count == 1
              then (allowed, limiter.redis.expire (key_of bucket) limiter.window_seconds s')
              else if ltb limiter.limit count
              then (exceeded, s')
              else (allowed, s')
        ]

  -- `reset`
  unfoldable pub reset : String → S → S
  reset bucket s = if limiter.redis.connected s then limiter.redis.del (key_of bucket) s else s
