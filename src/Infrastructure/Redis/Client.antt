-- ===== src/Infrastructure/Redis/Client.antt =====
-- The calls of the crate `redis` that the repository makes, as a parameter: each acts on the
-- server's state `R`, and returns the value in the type that the code asks for, or an error text.
use be_in_crypto_social_api.Prelude.{ℕ, ℤ, Text, List, Option}
use be_in_crypto_social_api.Prelude.Exec.{Exec}

pub record Redis (R : Type 0) : Type 0 where
  -- pipe().incr(key, n).expire(key, ttl), pipe().decr(key, n).expire(key, ttl)
  pub incr_expire : Text → ℕ → ℤ → Exec Text R (ℕ × ℕ)
  pub decr_expire : Text → ℕ → ℤ → Exec Text R (ℕ × ℕ)
  -- set_ex and get of a u64
  pub set_ex_u64 : Text → ℕ → ℕ → Exec Text R (Unit {0})
  pub get_u64 : Text → Exec Text R (Option ℕ)
  pub mget_u64 : List Text → Exec Text R (List (Option ℕ))
  -- a pipe of set_ex
  pub pipe_set_ex_u64 : List (Text × ℕ × ℕ) → Exec Text R (Unit {0})
  -- MGET of two keys
  pub mget_pair : Text → Text → Exec Text R (Option Text × Option Text)
  -- pipe().set(key, value).set_ex(key', value', ttl)
  pub pipe_set_set_ex : Text → Text → Text → Text → ℕ → Exec Text R (Unit {0})
  -- SET key value NX EX ttl
  pub set_nx_ex : Text → Text → ℕ → Exec Text R (Option Text)
  pub ping : Exec Text R (Unit {0})
  pub publish : Text → Text → Exec Text R (Unit {0})
  pub get_string : Text → Exec Text R (Option Text)
  pub set_ex : Text → Text → ℕ → Exec Text R (Unit {0})
  -- a new pub/sub connection, and PSUBSCRIBE with the payloads that it then delivers
  pub get_async_pubsub : Exec Text R (Unit {0})
  pub psubscribe : Text → Exec Text R (List Text)
  -- get_multiplexed_async_connection
  pub connect : Exec Text R (Unit {0})
