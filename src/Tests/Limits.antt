-- ===== src/Tests/Limits.antt =====
-- The rate limiter over hashes in a list.
use be_in_crypto_social_api.Prelude.{
  ◌/◌, ◌⊎◌, false, some, ℕ, ◌+◌, ◌-◌, ◌*◌, ◌≤◌, ◌≡◌, refl, Text, Text-discrete, codes, List, [],
  ◌∷◌, none, true, leb, min, get, insert, get-insert_self, get-insert_ne, arith,
}
use be_in_crypto_social_api.Infrastructure.Redis.Repository.{RedisWorld}
use be_in_crypto_social_api.Infrastructure.Redis.RateLimit.{
  Arithmetic, Bucket, Buckets, rate_limiter,
}
use be_in_crypto_social_api.Infrastructure.Redis.RateLimit.Numbers.{Rounds}
use native.Mathlib.Nat.{div-mul-le_self}
use be_in_crypto_social_api.Api.Middleware.{
  Request, served, too_many_requests, unlimited, rate_limit_layer,
}
use be_in_crypto_social_api.Api.App.{per_minute}
use be_in_crypto_social_api.Infrastructure.Wiring.Limits.{
  tokens, headers, charged, rate_limit_layer-bucket,
}
use be_in_crypto_social_api.Tests.Fixtures.{uuid_text}
use be_in_crypto_social_api.Infrastructure.Redis.RateLimit.Bound.{
  BucketLaws, allowed_of, allowed_of-bound,
}

-- the arithmetic of whole numbers, for limits that are multiples of the window
abbrev whole : Arithmetic ℕ
whole = record {
  of = λ k. k;
  plus = λ x y. x + y;
  minus = λ x y. x - y;
  times = λ x y. x * y;
  quotient = λ x y. x / y;
  at_least = λ x y. leb y x;
  least = λ x y. min x y;
  floor = λ x. x;
  ceil = λ x. x;
  to_u64 = λ x. x;
}

whole-Rounds : Rounds whole
whole-Rounds = record {
  unit = 1;
  unit_lem = omega arith;
  value = λ x. x;
  of_lem = λ k fits. omega arith;
  plus_lem = λ x y. omega arith;
  minus_lem = λ x k fits enough. omega arith;
  times_lem = λ k x fits. omega arith;
  quotient_lem = λ k l k_fits l_fits some_part. omega (arith, div-mul-le_self k l);
  at_least_lem = λ x y enough. ground (arith, enough);
  least_lem = λ x y. (omega arith, omega arith);
}

abbrev Hashes : Type 0
Hashes = List (Text × Bucket ℕ)

abbrev buckets : Buckets ℕ Hashes
buckets = record {
  hmget = λ key r. get Text-discrete key r;
  hmset = λ key x r. insert Text-discrete key x r;
  expire = λ key ttl r. r;
  call_error = λ r. none;
}

bucket_laws : BucketLaws buckets
bucket_laws = record {
  hmget-hmset = λ key x r. get-insert_self Text-discrete key x r;
  hmget-hmset_other = λ key q x r ne. get-insert_ne Text-discrete key q x r ne;
  hmget-expire = λ key q ttl r. refl;
}

abbrev ann : Text
ann = codes "rl:user:1"

-- three requests of Ann and one of another user in a minute of 120 requests
abbrev requests : List (Text × ℕ)
requests = (ann, 100) ∷ (codes "rl:user:2", 100) ∷ (ann, 110) ∷ (ann, 115) ∷ []

abbrev nobody : RedisWorld Hashes
nobody = record { conn = true; server = [] }

-- Ann's bucket is empty at first
abbrev drained : RedisWorld Hashes
drained = record { conn = true; server = (ann, record { tokens = 0; last_update = 100 }) ∷ [] }

allowed_of-bound_example :
    allowed_of whole buckets 120 60 ann requests drained * 60 ≤ 120 * 60 + (120 - 100) * 120
allowed_of-bound_example =
    allowed_of-bound whole buckets 120 60 bucket_laws whole-Rounds (omega arith) (omega arith)
      (omega arith) ann requests 100 120 drained (omega arith) (omega arith)
      (omega arith, (omega arith, (omega arith, (omega arith, omega arith))))

-- a public request from an address, and a handler that leaves the world as it is
abbrev visitor : Request
visitor = record { authorization = none; user_id = none; connect_ip = some (codes "10.0.0.1") }

abbrev handler : Request → RedisWorld Hashes → Text × RedisWorld Hashes
handler req w = (codes "done", w)

rate_limit_layer-bucket_example :
    let layer =
      rate_limit_layer uuid_text
        (per_minute (rate_limiter whole buckets (λ w. 100)) 120)
        visitor
        handler
        nobody in
    let current = tokens whole buckets uuid_text (λ w. 100) 120 visitor handler nobody in
    let shown = headers whole buckets uuid_text (λ w. 100) 120 visitor handler nobody in
    let after = charged whole buckets uuid_text (λ w. 100) 120 visitor handler nobody in
    (((nobody.conn ≡ false) ⊎ ((e : Text) × (buckets.call_error nobody.server ≡ some e)))
      × (layer ≡ (unlimited (codes "done"), nobody)))
    ⊎ (((leb 1 current ≡ true)
          × (layer ≡ (served (codes "done") (shown (current - 1) none), after)))
        ⊎ ((leb 1 current ≡ false)
            × (layer
                ≡ (too_many_requests (shown current (some (shown current none).reset)), nobody))))
rate_limit_layer-bucket_example =
    rate_limit_layer-bucket whole buckets uuid_text (λ w. 100) 120 visitor handler nobody
