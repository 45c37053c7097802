-- ===== src/Infrastructure/Redis/RateLimit/Numbers.antt =====
-- What the rounding of floating-point numbers may add to the tokens of a bucket.
use be_in_crypto_social_api.Prelude.{
  ℕ, ◌+◌, ◌-◌, ◌*◌, ◌^◌, ◌≤◌, ◌<◌, ◌≡◌, ap, ◌∙◌, min, Option, none, some, true, arith,
}
use native.Mathlib.Nat.{add-mul, mul-sub, mul_comm, mul-le-mul_right, mul-le-mul_left}
use be_in_crypto_social_api.Infrastructure.Redis.RateLimit.{
  Arithmetic, Bucket, refill, capacity, fill_rate, last_tokens, delta,
}

-- What IEEE 754 says of finite numbers: `value` is a number in parts of the least one above 0, of
-- which `unit` are 1, and 0 for a negative number. Whole numbers below 2^53 are exact, and a result
-- is rounded by at most its 2^53-rd part.
pub record Rounds {F : Type 0} (a : Arithmetic F) : Type 0 where
  pub unit : ℕ
  pub unit_lem : 0 < unit
  pub value : F → ℕ
  pub of_lem : (k : ℕ) → k < 2 ^ 53 → value (a.of k) ≡ k * unit
  pub plus_lem : (x y : F) → value (a.plus x y) * 2 ^ 53 ≤ (value x + value y) * (2 ^ 53 + 1)
  pub minus_lem :
      (x : F) (k : ℕ)
      → k < 2 ^ 53
      → a.at_least x (a.of k) ≡ true
      → value (a.minus x (a.of k)) * 2 ^ 53 ≤ (value x - k * unit) * (2 ^ 53 + 1)
  pub times_lem :
      (k : ℕ) (x : F)
      → k < 2 ^ 53
      → value (a.times (a.of k) x) * 2 ^ 53 ≤ (k * value x) * (2 ^ 53 + 1)
  pub quotient_lem :
      (k l : ℕ)
      → k < 2 ^ 53
      → l < 2 ^ 53
      → 0 < l
      → value (a.quotient (a.of k) (a.of l)) * l * 2 ^ 53 ≤ (k * unit) * (2 ^ 53 + 1)
  pub at_least_lem : (x y : F) → a.at_least x y ≡ true → value y ≤ value x
  pub least_lem : (x y : F) → (value (a.least x y) ≤ value x) × (value (a.least x y) ≤ value y)

rounded :
    (x y p m s cur cap : ℕ)
    → p * 2 ^ 53 ≤ y * (2 ^ 53 + 1)
    → m * 2 ^ 53 ≤ p * (2 ^ 53 + 1)
    → s * 2 ^ 53 ≤ (x + m) * (2 ^ 53 + 1)
    → cur ≤ s
    → cur ≤ cap
    → cur * 2 ^ 50 ≤ min cap (x + y) * 2 ^ 50 + cap
rounded x y p m s cur cap rated timed summed below capped = omega arith

spent :
    (cur left cost lev cap none_since : ℕ)
    → none_since ≡ 0
    → cur * 2 ^ 50 ≤ lev * 2 ^ 50 + cap
    → cur ≤ cap
    → cost ≤ cur
    → left * 2 ^ 53 ≤ (cur - cost) * (2 ^ 53 + 1)
    → (min cap (left + none_since) + cost) * 2 ^ 49 ≤ lev * 2 ^ 49 + cap
spent cur left cost lev cap none_since stopped refilled capped enough paid = omega arith

sub_self : (now k : ℕ) → (now - now) * k ≡ 0
sub_self now k = ap (λ (n : ℕ). n * k) {y = 0} (omega arith) ∙ omega arith

sub-mul : (x y k : ℕ) → (x - y) * k ≤ x * k - y * k
sub-mul x y k = omega (arith, mul-sub k x y, mul_comm (x - y) k)

module _ {F : Type 0} (a : Arithmetic F) (laws : Rounds a) (limit window : ℕ) (few : limit < 2 ^ 53)
    (short : window < 2 ^ 53) (some_time : 0 < window) where
  -- a full bucket, in parts of a `window`-th of the least number
  abbrev pub full : ℕ
  full = limit * laws.unit * window

  -- the tokens that a bucket has at a time, without any rounding, in the same parts
  abbrev pub level : ℕ → Option (Bucket F) → ℕ
  level now none = full
  level now (some x) =
      min full (laws.value x.tokens * window + (now - x.last_update) * (limit * laws.unit))

  capped :
      (now : ℕ) (o : Option (Bucket F)) → laws.value (refill a limit window now o) * window ≤ full
  unfolding refill
  capped now o =
      let cap =
        (laws.least_lem (capacity a limit window) (
          a.plus (last_tokens a limit window o)
            (a.times (a.of (delta a limit window now o)) (fill_rate a limit window)))).0 in
      mul-le-mul_right window (omega (arith, cap, laws.of_lem limit few))

  delta-le : (now : ℕ) (o : Option (Bucket F)) → delta a limit window now o ≤ now
  delta-le now none = omega arith
  delta-le now (some x) = omega arith

  -- the script's tokens exceed those without any rounding by at most a 2^50-th of a full bucket
  refilled :
      (now : ℕ) (o : Option (Bucket F))
      → now < 2 ^ 53
      → laws.value (refill a limit window now o) * window * 2 ^ 50
        ≤ min full (
              laws.value (last_tokens a limit window o) * window
              + delta a limit window now o * (limit * laws.unit))
            * 2 ^ 50
          + full
  unfolding refill
  refilled now o soon =
      let rate = fill_rate a limit window in
      let since = delta a limit window now o in
      let tokens = last_tokens a limit window o in
      let gained = a.times (a.of since) rate in
      let sum = a.plus tokens gained in
      let lapse : since < 2 ^ 53 = omega (arith, delta-le now o, soon) in
      let rated = mul-le-mul_left since (laws.quotient_lem limit window few short some_time) in
      let timed = mul-le-mul_right window (laws.times_lem since rate lapse) in
      let summed = mul-le-mul_right window (laws.plus_lem tokens gained) in
      let below = mul-le-mul_right window (laws.least_lem (capacity a limit window) sum).1 in
      rounded (laws.value tokens * window) (since * (limit * laws.unit))
        (since * (laws.value rate * window)) (laws.value gained * window) (laws.value sum * window)
        _ full (omega (arith, rated)) (omega (arith, timed)) (omega (arith, summed))
        (omega (arith, below)) (capped now o)

  refilled-level :
      (now : ℕ) (o : Option (Bucket F))
      → now < 2 ^ 53
      → laws.value (refill a limit window now o) * window * 2 ^ 50 ≤ level now o * 2 ^ 50 + full
  refilled-level now none soon = omega (arith, capped now none)
  refilled-level now (some x) soon = refilled now (some x) soon

  -- A request that is allowed pays its token, but for a 2^49-th of a full bucket.
  pub level-paid :
      (now : ℕ) (o : Option (Bucket F))
      → now < 2 ^ 53
      → let current = refill a limit window now o in
        a.at_least current (a.of 1) ≡ true
        → (level now (some (record { tokens = a.minus current (a.of 1); last_update = now }))
              + laws.unit * window)
            * 2 ^ 49
          ≤ level now o * 2 ^ 49 + full
  level-paid now o soon enough =
      let current = refill a limit window now o in
      let left = a.minus current (a.of 1) in
      let one = laws.of_lem 1 (omega arith) in
      let paid = mul-le-mul_right window (laws.minus_lem current 1 (omega arith) enough) in
      let had = mul-le-mul_right window (laws.at_least_lem current (a.of 1) enough) in
      spent (laws.value current * window) (laws.value left * window) (laws.unit * window)
        (level now o) full ((now - now) * (limit * laws.unit)) (sub_self now (limit * laws.unit))
        (refilled-level now o soon) (capped now o)
        (omega (arith, had, ap (λ (n : ℕ). n * window) one))
        (omega (arith, paid, sub-mul (laws.value current) (1 * laws.unit) window))

  split_time :
      (t now last : ℕ)
      → t ≤ now
      → (now - last) * (limit * laws.unit)
        ≤ (t - last) * (limit * laws.unit) + (now - t) * (limit * laws.unit)
  split_time t now last le =
      let more : now - last ≤ (t - last) + (now - t) = omega arith in
      omega (
        arith,
        mul-le-mul_right (limit * laws.unit) more,
        add-mul (t - last) (now - t) (limit * laws.unit),
      )

  pub level-later :
      (t now : ℕ) (o : Option (Bucket F))
      → t ≤ now
      → level now o ≤ level t o + (now - t) * (limit * laws.unit)
  level-later t now none le = omega arith
  level-later t now (some x) le = omega (arith, split_time t now x.last_update le)

  pub level-full : (t : ℕ) (o : Option (Bucket F)) → level t o ≤ full
  level-full t none = omega arith
  level-full t (some x) = omega arith
