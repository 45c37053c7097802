-- ===== src/Infrastructure/Redis/Counters.antt =====
-- The cached counts of the repository, as counters of the server.
use be_in_crypto_social_api.Prelude.{
  ℕ, suc, ◌+◌, ◌^◌, ◌<◌, pos, Text, Text-discrete, ◌≡◌, refl, ◌∙◌, some, true, false, or_zero,
  arith, as_u64,
}
use be_in_crypto_social_api.Prelude.Exec.{ok, err}
use be_in_crypto_social_api.Domain.Errors.{cache_offline}
use be_in_crypto_social_api.Domain.Model.{Uuid, ContentId, ContentType}
use be_in_crypto_social_api.Infrastructure.Redis.Keys.{Config, format_count_key, get_ttl_for_key}
use be_in_crypto_social_api.Infrastructure.Redis.Laws.{RedisLaws}
use be_in_crypto_social_api.Infrastructure.Redis.Repository.{
  RedisWorld, RedisLikeRepository, send_or, increment, decrement, set_value, get_count,
}

-- the keys of counts live as long as the configured time for counts
pub get_ttl_for_key-count :
    (config : Config) (uuid_text : Uuid → Text) (t : ContentType) (i : ContentId)
    → get_ttl_for_key config (format_count_key uuid_text t i) ≡ config.cache_ttl_like_counts_secs
unfolding get_ttl_for_key format_count_key Text-discrete
get_ttl_for_key-count config uuid_text t i = refl

module _ {R : Type 0} (repo : RedisLikeRepository R) (t : ContentType) (i : ContentId) where
  abbrev key : Text
  key = format_count_key repo.uuid_text t i

  -- with no connection no method does anything
  pub counts_offline :
      (n : ℕ) (w : RedisWorld R)
      → w.conn ≡ false
      → (get_count repo t i w ≡ (err cache_offline, w))
        × (increment repo t i w ≡ (err cache_offline, w))
        × (decrement repo t i w ≡ (err cache_offline, w))
        × (set_value repo t i n w ≡ (err cache_offline, w))
  unfolding get_count increment decrement set_value send_or
  counts_offline n w down = ground arith

  module _ (laws : RedisLaws repo.redis) where
    pub get_count-online :
        (w : RedisWorld R)
        → w.conn ≡ true
        → get_count repo t i w ≡ (ok (laws.counter w.server key), w)
    unfolding get_count send_or
    get_count-online w up = ground (arith, laws.get_lem key w.server)

    module _ (ttl : ℕ) (positive : repo.config.cache_ttl_like_counts_secs ≡ pos (suc ttl)) where
      count_ttl : get_ttl_for_key repo.config key ≡ pos (suc ttl)
      count_ttl = get_ttl_for_key-count repo.config repo.uuid_text t i ∙ positive

      pub increment-online :
          (w : RedisWorld R)
          → w.conn ≡ true
          → or_zero (laws.counter w.server key) + 1 < 2 ^ 63
          → let n = or_zero (laws.counter w.server key) + 1 in
            let (r, w') = increment repo t i w in
            (r ≡ ok n) × (laws.counter w'.server key ≡ some n) × (w'.conn ≡ true)
      unfolding increment send_or
      increment-online w up room =
          rw count_ttl (ground (arith, laws.incr_lem key ttl w.server room))

      pub decrement-online :
          (w : RedisWorld R) (n : ℕ)
          → w.conn ≡ true
          → laws.counter w.server key ≡ some (suc n)
          → let (r, w') = decrement repo t i w in
            (r ≡ ok n) × (laws.counter w'.server key ≡ some n) × (w'.conn ≡ true)
      unfolding decrement send_or
      decrement-online w n up hit =
          rw count_ttl (ground (arith, laws.decr_lem key ttl n w.server hit))

      pub set_value-online :
          (w : RedisWorld R) (n : ℕ)
          → w.conn ≡ true
          → let w' = (set_value repo t i n w).1 in
            (laws.counter w'.server key ≡ some n) × (w'.conn ≡ true)
      unfolding set_value send_or as_u64
      set_value-online w n up = rw count_ttl (ground (arith, laws.set_lem key n ttl w.server))
