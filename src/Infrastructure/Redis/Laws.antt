-- ===== src/Infrastructure/Redis/Laws.antt =====
-- What the cache repository relies on of the Redis server: its documented commands on counters.
-- No other client acts, and no key expires, during a call.
use be_in_crypto_social_api.Prelude.{ℕ, suc, ◌+◌, ◌^◌, ◌<◌, pos, Text, ◌≡◌, Option, some, or_zero}
use be_in_crypto_social_api.Prelude.Exec.{ok}
use be_in_crypto_social_api.Infrastructure.Redis.Client.{Redis}

pub record RedisLaws {R : Type 0} (redis : Redis R) : Type 0 where
  -- the number at a key, if a `GET` reads one there
  pub counter : R → Text → Option ℕ
  pub get_lem : (key : Text) (r : R) → redis.get_u64 key r ≡ (ok (counter r key), r)
  -- `INCR` of an absent key starts at 0; `EXPIRE` with a positive time keeps the key
  pub incr_lem :
      (key : Text) (ttl : ℕ) (r : R)
      → or_zero (counter r key) + 1 < 2 ^ 63
      → let n = or_zero (counter r key) + 1 in
        let (x, r') = redis.incr_expire key 1 (pos (suc ttl)) r in
        (x ≡ ok (n, 1)) × (counter r' key ≡ some n)
  pub decr_lem :
      (key : Text) (ttl n : ℕ) (r : R)
      → counter r key ≡ some (suc n)
      → let (x, r') = redis.decr_expire key 1 (pos (suc ttl)) r in
        (x ≡ ok (n, 1)) × (counter r' key ≡ some n)
  pub set_lem :
      (key : Text) (n ttl : ℕ) (r : R)
      → let (x, r') = redis.set_ex_u64 key n (suc ttl) r in (x ≡ ok tt) × (counter r' key ≡ some n)
