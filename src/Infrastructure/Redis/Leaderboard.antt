-- ===== src/Infrastructure/Redis/Leaderboard.antt =====
-- The leaderboard in Redis: `set_leaderboard_with_canary` and `get_leaderboard_with_canary` of
-- social_api/src/infrastructure/redis/like_repository.rs.
use be_in_crypto_social_api.Prelude.{
  ℕ, suc, Text, codes, ◌≡◌, ◌≢◌, ap, List, Option, none, some, get_elem?, Bool, true, arith,
}
use mathlib.Core.Option.{some-injective}
use be_in_crypto_social_api.Prelude.Exec.{ok}
use be_in_crypto_social_api.Domain.Model.{ContentType}
use be_in_crypto_social_api.Api.Dto.{TopLikeItem}
use be_in_crypto_social_api.Infrastructure.Redis.Client.{Redis}
use be_in_crypto_social_api.Infrastructure.Redis.Keys.{data_, canary, format_lead_key}
use be_in_crypto_social_api.Infrastructure.Redis.Repository.{
  RedisWorld, RedisLikeRepository, get_leaderboard_with_canary, set_leaderboard_with_canary,
  send_or, present,
}

-- What Redis documents of its commands on strings, while no other client acts and no key expires.
pub record StringLaws {R : Type 0} (redis : Redis R) : Type 0 where
  pub value : R → Text → Option Text
  pub mget_lem : (k₁ k₂ : Text) (r : R) → redis.mget_pair k₁ k₂ r ≡ (ok (value r k₁, value r k₂), r)
  pub pipe_set_lem :
      (k₁ v₁ k₂ v₂ : Text) (ttl : ℕ) (r : R)
      → k₁ ≢ k₂
      → let (x, r') = redis.pipe_set_set_ex k₁ v₁ k₂ v₂ (suc ttl) r in
        (x ≡ ok tt) × (value r' k₁ ≡ some v₁) × (value r' k₂ ≡ some v₂)

keys-apart :
    (window : Text) (t : ContentType)
    → format_lead_key data_ window t ≢ format_lead_key canary window t
unfolding format_lead_key
keys-apart window t e =
    absurd (omega (arith, some-injective 100 99 (ap (λ key. get_elem? key 12) e)))

module _ {R : Type 0} (repo : RedisLikeRepository R) (laws : StringLaws repo.redis) (window : Text)
    (t : ContentType) where
  -- A leaderboard is read as it was written, and as fresh, while its canary lives: the list that is
  -- written is the list that is read.
  pub get-set_leaderboard :
      (items : List TopLikeItem) (json : Text) (ttl : ℕ) (w : RedisWorld R)
      → w.conn ≡ true
      → repo.items_to_json items ≡ some json
      → repo.items_from_json json ≡ some items
      → let (stored, w') = set_leaderboard_with_canary repo window t items (suc ttl) w in
        (stored ≡ ok tt)
        × (get_leaderboard_with_canary repo window t w' ≡ (ok (some items, true), w'))
  unfolding get_leaderboard_with_canary set_leaderboard_with_canary send_or
  get-set_leaderboard items json ttl w up written read =
      let k₁ = format_lead_key data_ window t in
      let k₂ = format_lead_key canary window t in
      let set = laws.pipe_set_lem k₁ json k₂ (codes "alive") ttl w.server (keys-apart window t) in
      let server = (repo.redis.pipe_set_set_ex k₁ json k₂ (codes "alive") (suc ttl) w.server).1 in
      ground (arith, up, written, read, set, laws.mget_lem k₁ k₂ server)

  -- where nothing is cached
  pub get_leaderboard-none :
      (w : RedisWorld R)
      → w.conn ≡ true
      → laws.value w.server (format_lead_key data_ window t) ≡ none
      → (fresh : Bool) × (get_leaderboard_with_canary repo window t w ≡ (ok (none, fresh), w))
  unfolding get_leaderboard_with_canary send_or
  get_leaderboard-none w up missing =
      let k₁ = format_lead_key data_ window t in
      let k₂ = format_lead_key canary window t in
      (present (laws.value w.server k₂), ground (arith, up, missing, laws.mget_lem k₁ k₂ w.server))
