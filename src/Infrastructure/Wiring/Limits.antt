-- ===== src/Infrastructure/Wiring/Limits.antt =====
-- The layer of the rate limiter over the limiter of the Redis repository.
use be_in_crypto_social_api.Prelude.{
  ℕ, ◌≡◌, ◌⊎◌, inl, inr, Text, Option, Option-cases, none, some, Bool-cases, true, false, arith,
}
use be_in_crypto_social_api.Domain.Model.{Uuid}
use be_in_crypto_social_api.Api.Middleware.{
  Request, RateHeaders, served, too_many_requests, unlimited, extract_key, rate_limit_layer,
}
use be_in_crypto_social_api.Api.App.{per_minute}
use be_in_crypto_social_api.Infrastructure.Redis.Repository.{RedisWorld, send_or}
use be_in_crypto_social_api.Infrastructure.Redis.RateLimit.{
  Arithmetic, Buckets, refill, reply, script, invoke, check_limit, rate_limiter, fill_rate,
}

module _ {F R B : Type 0} (a : Arithmetic F) (b : Buckets F R) (uuid_text : Uuid → Text)
    (clock : RedisWorld R → ℕ) (limit : ℕ) (req : Request)
    (next : Request → RedisWorld R → B × RedisWorld R) (w : RedisWorld R) where
  abbrev key : Text
  key = extract_key uuid_text req

  -- the tokens of the request's key
  abbrev pub tokens : F
  tokens = refill a limit 60 (clock w) (b.hmget key w.server)

  -- the headers of a response after which the bucket holds some tokens
  abbrev pub headers : F → Option ℕ → RateHeaders
  headers held retry_after = record {
    limit = limit;
    remaining = a.to_u64 (a.floor held);
    reset = a.to_u64 (a.ceil (a.quotient (a.minus (a.of limit) held) (fill_rate a limit 60)));
    retry_after = retry_after;
  }

  -- the server after an allowed request
  abbrev pub charged : RedisWorld R
  charged = record {
    conn = true;
    server =
        b.expire key 3600 (
          b.hmset key (record { tokens = a.minus tokens (a.of 1); last_update = clock w })
            w.server);
  }

  -- A request behind the layer has one of three ends. Where Redis is down or the script fails, the
  -- handler runs as if there were no limit. Where the key has a token, it is taken, the handler
  -- runs, and the headers of its response say how many whole tokens are left and when the bucket is
  -- full. Else the answer is 429, with the time until the bucket is full to retry after, the handler
  -- does not run, and the world stays as it is. The numbers are those of the floating-point
  -- arithmetic, whatever it rounds, and for every limit.
  pub rate_limit_layer-bucket :
      let layer =
        rate_limit_layer uuid_text (per_minute (rate_limiter a b clock) limit) req next w in
      let left = a.minus tokens (a.of 1) in
      (((w.conn ≡ false) ⊎ ((e : Text) × (b.call_error w.server ≡ some e)))
        × (layer ≡ (unlimited (next req w).0, (next req w).1)))
      ⊎ (((a.at_least tokens (a.of 1) ≡ true)
            × (layer ≡ (served (next req charged).0 (headers left none), (next req charged).1)))
          ⊎ ((a.at_least tokens (a.of 1) ≡ false)
              × (layer
                  ≡ (too_many_requests (headers tokens (some (headers tokens none).reset)), w))))
  unfolding rate_limit_layer rate_limiter check_limit invoke script reply send_or
  rate_limit_layer-bucket = elim (Bool-cases w.conn) [
    | inr off ↦ inl (inl off, ground (arith, off))
    | inl on ↦ elim (Option-cases (b.call_error w.server)) [
      | inr (e, fails) ↦ inl (inr (e, fails), ground (arith, on, fails))
      | inl calls ↦ elim (Bool-cases (a.at_least tokens (a.of 1))) [
        | inl enough ↦ inr (inl (enough, ground (arith, on, calls, enough)))
        | inr few ↦ inr (inr (few, ground (arith, on, calls, few)))
      ]
    ]
  ]
