-- ===== src/Infrastructure/Redis/RateLimit/Bound.antt =====
-- How many requests of one key the limiter allows in a time, whatever other keys do.
use be_in_crypto_social_api.Prelude.{
  ℕ, suc, ◌+◌, ◌-◌, ◌*◌, ◌^◌, ◌≤◌, ◌<◌, ◌≡◌, ◌≢◌, sym, ap, ◌∙◌, subst, Text, Text-discrete, List,
  [], ◌∷◌, length, some, true, dec_le, ite, if_pos, if_neg, if◌then◌else◌, ◌⊎◌, inl, inr, arith,
}
use native.Mathlib.Nat.{mul-le-mul_right}
use be_in_crypto_social_api.Prelude.Exec.{Result, ok, err}
use be_in_crypto_social_api.Domain.Errors.{DomainError}
use be_in_crypto_social_api.Domain.Ports.{RateLimitStatus}
use be_in_crypto_social_api.Infrastructure.Redis.Repository.{RedisWorld, send_or}
use be_in_crypto_social_api.Infrastructure.Redis.RateLimit.{
  Arithmetic, Bucket, Buckets, refill, reply, script, invoke, check_limit,
}
use be_in_crypto_social_api.Infrastructure.Redis.RateLimit.Numbers.{
  Rounds, full, level, level-paid, level-later, level-full,
}

-- The hashes of the server, as documented, while no key expires.
pub record BucketLaws {F R : Type 0} (b : Buckets F R) : Type 0 where
  pub hmget-hmset : (key : Text) (x : Bucket F) (r : R) → b.hmget key (b.hmset key x r) ≡ some x
  pub hmget-hmset_other :
      (key q : Text) (x : Bucket F) (r : R) → key ≢ q → b.hmget q (b.hmset key x r) ≡ b.hmget q r
  pub hmget-expire : (key q : Text) (ttl : ℕ) (r : R) → b.hmget q (b.expire key ttl r) ≡ b.hmget q r

-- the times of requests, from a time on, in order and not after another one
abbrev pub IsClock : ℕ → List (Text × ℕ) → ℕ → Type 0
IsClock t [] end = t ≤ end
IsClock t ((q, now) ∷ requests) end = (t ≤ now) × IsClock now requests end

IsClock-le : (t : ℕ) (requests : List (Text × ℕ)) (end : ℕ) → IsClock t requests end → t ≤ end
IsClock-le t [] end h = h
IsClock-le t ((q, now) ∷ requests) end (later, h) = omega (arith, IsClock-le now requests end h)

abbrev admits : Result DomainError RateLimitStatus → ℕ
admits (ok status) = if status.allowed then 1 else 0
admits (err e) = 0

-- an excess of less than one unit is none
whole_requests :
    (x y excess unit : ℕ)
    → 0 < unit
    → excess < 2 ^ 49
    → x * unit * 2 ^ 49 ≤ y * unit * 2 ^ 49 + excess * unit
    → x ≤ y
whole_requests x y excess unit some_unit small near = elim (dec_le x y) [
  | yes le ↦ le
  | no gt ↦
      let more : suc y ≤ x = omega (arith, gt) in
      let much = mul-le-mul_right unit more in
      let less = mul-le-mul_right unit small in absurd (omega (arith, near, much, less, some_unit))
]

module _ {F R : Type 0} (a : Arithmetic F) (b : Buckets F R) (limit window : ℕ) where
  -- how many of the requests, each of a key at a time, are of one key and allowed
  unfoldable pub allowed_of : Text → List (Text × ℕ) → RedisWorld R → ℕ
  allowed_of key [] w = 0
  allowed_of key ((q, now) ∷ requests) w =
      let (r, w') = check_limit a b now q limit window w in
      let rest = allowed_of key requests w' in ite (Text-discrete q key) (admits r + rest) rest

  -- what a request leaves on the server: nothing new, or one request's tokens less
  check_limit_lem :
      (now : ℕ) (q : Text) (w : RedisWorld R)
      → let (r, w') = check_limit a b now q limit window w in
        let current = refill a limit window now (b.hmget q w.server) in
        ((admits r ≡ 0) × (w'.server ≡ w.server))
        ⊎ ((admits r ≡ 1)
            × (a.at_least current (a.of 1) ≡ true)
            × (w'.server
                ≡ b.expire q 3600 (
                    b.hmset q
                      (record { tokens = a.minus current (a.of 1); last_update = now })
                      w.server)))
  unfolding check_limit invoke script reply send_or
  check_limit_lem now q w = ground arith

  module _ (laws : BucketLaws b) (rounds : Rounds a) (few : limit < 2 ^ 53)
      (short : window < 2 ^ 53) (some_time : 0 < window) (key : Text) where
    abbrev top : ℕ
    top = full a rounds limit window few short some_time

    abbrev held : ℕ → RedisWorld R → ℕ
    held now w = level a rounds limit window few short some_time now (b.hmget key w.server)

    -- a request of the key pays for itself, but for the rounding
    held-own :
        (now : ℕ) (w : RedisWorld R)
        → now < 2 ^ 53
        → let (r, w') = check_limit a b now key limit window w in
          (held now w' + admits r * (rounds.unit * window)) * 2 ^ 49 ≤ held now w * 2 ^ 49 + top
    held-own now w soon = elim (check_limit_lem now key w) [
      | inl (denied, same) ↦ rw (denied, same) (omega arith)
      | inr (allowed, enough, spent) ↦
          rw (allowed, spent, laws.hmget-expire, laws.hmget-hmset)
            (omega (
              arith,
              level-paid a rounds limit window few short some_time now (b.hmget key w.server) soon
                  enough,
            ))
    ]

    held-other :
        (now : ℕ) (q : Text) (w : RedisWorld R)
        → q ≢ key
        → b.hmget key (check_limit a b now q limit window w).1.server ≡ b.hmget key w.server
    held-other now q w ne = elim (check_limit_lem now q w) [
      | inl (denied, same) ↦ ap (b.hmget key) same
      | inr (allowed, enough, spent) ↦
          ap (b.hmget key) spent
          ∙ laws.hmget-expire q key 3600 _
          ∙ laws.hmget-hmset_other q key _ w.server ne
    ]

    allowed_of-held :
        (requests : List (Text × ℕ)) (t end : ℕ) (w : RedisWorld R)
        → end < 2 ^ 53
        → IsClock t requests end
        → allowed_of key requests w * (rounds.unit * window) * 2 ^ 49
          ≤ (held t w + (end - t) * (limit * rounds.unit)) * 2 ^ 49 + length requests * top
    unfolding allowed_of
    allowed_of-held [] t end w ends clock = omega arith
    allowed_of-held ((q, now) ∷ requests) t end w ends (later, clock) =
        let (r, w') = check_limit a b now q limit window w in
        let last = IsClock-le now requests end clock in
        let ih = allowed_of-held requests now end w' ends clock in
        let lapse =
          level-later a rounds limit window few short some_time t now (b.hmget key w.server)
            later in
        let whole : end - t ≡ (end - now) + (now - t) = omega (arith, last, later) in
        let time = ap (λ (n : ℕ). n * (limit * rounds.unit)) whole in
        elim (Text-discrete q key) [
          | yes own ↦
              let paid : (held now w' + admits r * (rounds.unit * window)) * 2 ^ 49
                  ≤ held now w * 2 ^ 49 + top =
                subst
                  (λ (k : Text).
                    let (r', w'') = check_limit a b now k limit window w in
                    (held now w'' + admits r' * (rounds.unit * window)) * 2 ^ 49
                    ≤ held now w * 2 ^ 49 + top)
                  (sym own) (held-own now w (omega (arith, last, ends))) in
              rw (if_pos (Text-discrete q key) own) (omega (arith, ih, lapse, paid, time))
          | no ne ↦
              let kept : held now w' ≡ held now w =
                ap (level a rounds limit window few short some_time now) (held-other now q w ne) in
              rw (if_neg (Text-discrete q key) ne) (omega (arith, ih, lapse, kept, time))
        ]

    -- From any state of the server, while no key expires, in requests of any keys at times in order,
    -- fewer than 2^49 divided by `limit * window`, the limiter allows a key at most `limit` requests
    -- and, for every second between the first time and the last one, `limit / window` more: the
    -- rounding of the floating-point numbers allows none beyond that. Times and limits are below
    -- 2^53, and the window is above 0.
    pub allowed_of-bound :
        (requests : List (Text × ℕ)) (t end : ℕ) (w : RedisWorld R)
        → end < 2 ^ 53
        → length requests * limit * window < 2 ^ 49
        → IsClock t requests end
        → allowed_of key requests w * window ≤ limit * window + (end - t) * limit
    allowed_of-bound requests t end w ends rare clock =
        let total = allowed_of-held requests t end w ends clock in
        let start = level-full a rounds limit window few short some_time t (b.hmget key w.server) in
        whole_requests (allowed_of key requests w * window) (limit * window + (end - t) * limit)
          (length requests * limit * window) rounds.unit rounds.unit_lem rare
          (omega (arith, total, start))
