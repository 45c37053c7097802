-- ===== src/Infrastructure/Redis/RateLimit.antt =====
-- `check_limit` of social_api/src/infrastructure/redis/like_repository.rs and the script
-- social_api/src/infrastructure/redis/rate_limit.lua, over the floating-point numbers of both.
pub mod Numbers
pub mod Bound
use be_in_crypto_social_api.Prelude.{
  ℕ, ◌-◌, Text, Option, none, some, Bool, true, false, ◌==◌, if◌then◌else◌,
}
use be_in_crypto_social_api.Prelude.Exec.{Result, ok, err, Exec, pure, ◌>>=◌}
use be_in_crypto_social_api.Domain.Ports.{RateLimitStatus, RateLimiter, Call}
use be_in_crypto_social_api.Infrastructure.Redis.Repository.{RedisWorld, send}

-- The arithmetic of an `f64`, which is also that of a number of Lua: a whole number as one (`as f64`,
-- `tonumber`), the operations, `>=`, those of `math`, and the 64-bit word that Redis and `as u64`
-- make of a number that the script returns. A number that the hash keeps is read as it was written.
pub record Arithmetic (F : Type 0) : Type 0 where
  pub of : ℕ → F
  pub plus : F → F → F
  pub minus : F → F → F
  pub times : F → F → F
  pub quotient : F → F → F
  pub at_least : F → F → Bool
  pub least : F → F → F
  pub floor : F → F
  pub ceil : F → F
  pub to_u64 : F → ℕ

-- The hash of one key: `tokens`, and `last_update`, which is a time in whole seconds.
pub record Bucket (F : Type 0) : Type 0 where
  pub tokens : F
  pub last_update : ℕ

-- The commands of the script on the server's state, and whether the call of a script fails.
pub record Buckets (F R : Type 0) : Type 0 where
  pub hmget : Text → R → Option (Bucket F)
  pub hmset : Text → Bucket F → R → R
  pub expire : Text → ℕ → R → R
  pub call_error : R → Option Text

-- the three numbers that the script returns
pub record Reply : Type 0 where
  pub remaining : ℕ
  pub reset_after : ℕ
  pub allowed : ℕ

module _ {F : Type 0} (a : Arithmetic F) (limit window : ℕ) where
  abbrev pub capacity : F
  capacity = a.of limit

  -- `limit as f64 / window_secs as f64`
  abbrev pub fill_rate : F
  fill_rate = a.quotient (a.of limit) (a.of window)

  -- a key that does not exist has a full bucket, from now on
  abbrev pub last_tokens : Option (Bucket F) → F
  last_tokens none = capacity
  last_tokens (some x) = x.tokens

  -- `math.max(0, now - last_update)`; the subtraction of natural numbers stops at 0
  abbrev pub delta : ℕ → Option (Bucket F) → ℕ
  delta now none = now - now
  delta now (some x) = now - x.last_update

  -- `current_tokens` before the request
  unfoldable pub refill : ℕ → Option (Bucket F) → F
  refill now bucket =
      a.least capacity (a.plus (last_tokens bucket) (a.times (a.of (delta now bucket)) fill_rate))

  -- `reset_after` and the numbers that are returned
  unfoldable pub reply : F → ℕ → Reply
  reply current allowed = record {
    remaining = a.to_u64 (a.floor current);
    reset_after = a.to_u64 (a.ceil (a.quotient (a.minus capacity current) fill_rate));
    allowed = allowed;
  }

module _ {F R : Type 0} (a : Arithmetic F) (b : Buckets F R) where
  -- the cost of a request is 1
  unfoldable pub script : Text → ℕ → ℕ → ℕ → R → Reply × R
  unfolding refill reply
  script key limit window now r =
      let current = refill a limit window now (b.hmget key r) in
      let left = a.minus current (a.of 1) in
      if a.at_least current (a.of 1)
      then (
        reply a limit window left 1,
        b.expire key 3600 (b.hmset key (record { tokens = left; last_update = now }) r),
      )
      else (reply a limit window current 0, r)

  -- `invoke_async`: a call that fails has not run the script
  unfoldable pub invoke : Text → ℕ → ℕ → ℕ → Exec Text R Reply
  unfolding script
  invoke key limit window now r = elim (b.call_error r) [
    | none ↦ (let (answer, r') = script key limit window now r in (ok answer, r'))
    | some e ↦ (err e, r)
  ]

  -- at the time that the clock shows
  unfoldable pub check_limit : ℕ → Text → ℕ → ℕ → Call (RedisWorld R) RateLimitStatus
  unfolding invoke
  check_limit now key limit window_secs = do
    result ← send (invoke key limit window_secs now)
    pure (record {
      allowed = result.allowed == 1;
      remaining = result.remaining;
      limit = limit;
      reset_after = result.reset_after;
    })

  -- `RateLimiter for RedisLikeRepository`
  unfoldable pub rate_limiter : (RedisWorld R → ℕ) → RateLimiter (RedisWorld R)
  unfolding check_limit
  rate_limiter now = record {
    check_limit = λ key limit window w. check_limit (now w) key limit window w;
  }
