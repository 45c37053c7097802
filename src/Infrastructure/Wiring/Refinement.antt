-- ===== src/Infrastructure/Wiring/Refinement.antt =====
-- The wired service satisfies what the service's theorems take of its repositories.
use be_in_crypto_social_api.Prelude.{ℕ, suc, pos, ◌≡◌, refl, [], ◌∷◌, arith}
use be_in_crypto_social_api.Domain.Model.{DateTime, Like}
use be_in_crypto_social_api.Domain.Ports.{ExternalValidator}
use be_in_crypto_social_api.Application.LikeService.Service.{LikeService, State, Mutex}
use be_in_crypto_social_api.Application.LikeService.Backend.{
  View, SameDb, SameCache, CacheLaws, DbLaws, Backend,
}
use be_in_crypto_social_api.Infrastructure.Postgres.Sql.{count_likes}
use be_in_crypto_social_api.Infrastructure.Postgres.Table.{liked_at, IsUnique}
use be_in_crypto_social_api.Infrastructure.Postgres.Repository.{PgPool, Server}
use be_in_crypto_social_api.Infrastructure.Postgres.Calls.{
  get_likes_count-count, get_like-found, save-new, save-again, remove-found, remove-absent,
  save_others, remove_others,
}
use be_in_crypto_social_api.Infrastructure.Redis.Keys.{format_count_key}
use be_in_crypto_social_api.Infrastructure.Redis.Laws.{RedisLaws}
use be_in_crypto_social_api.Infrastructure.Redis.Repository.{
  RedisWorld, RedisLikeRepository, increment, decrement, set_value,
}
use be_in_crypto_social_api.Infrastructure.Redis.Counters.{
  counts_offline, get_count-online, increment-online, decrement-online, set_value-online,
}
use be_in_crypto_social_api.Infrastructure.Wiring.{World, service}

module _ {R : Type 0} (server : Server) (repo : RedisLikeRepository R)
    (extern_validator : ExternalValidator (World R)) (now : World R → DateTime)
    (until_granted : Mutex → State (World R) → State (World R)) where
  abbrev svc : LikeService (World R)
  svc = service server repo extern_validator now until_granted

  module _ (laws : RedisLaws repo.redis) (ttl : ℕ)
      (positive : repo.config.cache_ttl_like_counts_secs ≡ pos (suc ttl)) where
    abbrev pub wired_view : View (World R)
    wired_view = record {
      DbReady = λ w. (w.pg.faults ≡ []) × IsUnique w.pg.likes;
      cache_up = λ w. w.redis.conn;
      liked = λ w u t i. liked_at u t i w.pg.likes;
      total = λ w t i. count_likes t i w.pg.likes;
      cached = λ w t i. laws.counter w.redis.server (format_count_key repo.uuid_text t i);
    }

    -- a call of the cache leaves the database as it is
    same_db : (w : World R) (p : RedisWorld R) → SameDb wired_view w (record w { redis = p })
    same_db w p = record { ready = λ h. h; liked = λ u t i. refl; total = λ t i. refl }

    -- a call of the database leaves the cache as it is
    same_cache : (w : World R) (p : PgPool) → SameCache wired_view w (record w { pg = p })
    same_cache w p = record { cache_up = refl; cached = λ t i. refl }

    -- Over a server whose counters behave as documented, with a positive time to live of counts, the
    -- Redis repository does to the keys of the counts what the service takes of a cache: a connected
    -- one reads, increments, decrements and sets the count of its content, a lost connection is
    -- `CacheOffline`, and the table stays as it is.
    pub cache_laws : CacheLaws svc wired_view
    unfolding service
    cache_laws = record {
      get_count_up = λ t i w up. ground (arith, get_count-online repo t i laws w.redis up);
      get_count_down = λ t i w down. ground (arith, (counts_offline repo t i 0 w.redis down).0);
      increment_up = λ t i w up room. ground (
        arith,
        increment-online repo t i laws ttl positive w.redis up room,
        same_db w (increment repo t i w.redis).1,
      );
      increment_down = λ t i w down. ground (arith, (counts_offline repo t i 0 w.redis down).1);
      decrement_up = λ t i w n up hit. ground (
        arith,
        decrement-online repo t i laws ttl positive w.redis n up hit,
        same_db w (decrement repo t i w.redis).1,
      );
      decrement_down = λ t i w down. ground (arith, (counts_offline repo t i 0 w.redis down).2);
      set_value_up = λ t i n w up. ground (
        arith,
        set_value-online repo t i laws ttl positive w.redis n up,
        same_db w (set_value repo t i n w.redis).1,
      );
      set_value_down = λ t i n w down. ground (arith, (counts_offline repo t i n w.redis down).3);
    }

    -- Over a server that leaves a single row as it is, the Postgres repository does to a table with
    -- the unique constraint, while no query fails, what the service takes of a database: a new like
    -- is one row more, with its time in whole microseconds, a known one changes nothing, an unlike takes its row, an absent one changes
    -- nothing, the likes of other users and the cache stay as they are.
    pub db_laws : ((l : Like) → server.row_order (l ∷ []) ≡ l ∷ []) → DbLaws svc wired_view
    unfolding service
    db_laws alone = record {
      get_likes_count_up =
          λ t i w ready. ground (arith, get_likes_count-count server t i w.pg ready.0);
      get_like_up = λ u t i w d ready old.
          let found = get_like-found server u t i w.pg d alone ready.0 ready.1 old in
          (found.0, ground (arith, found.1), found.2);
      save_new = λ l w ready new.
          let saved = save-new server l w.pg ready.0 ready.1 new in
          (ground (arith, saved.0), saved.1, saved.2, (saved.3, saved.4), same_cache w _);
      save_others = λ l w u t i ready ne. save_others server l w.pg u t i ready.0 ne;
      save_existing = λ l w d ready old. ground (arith, save-again server l w.pg d ready.0 old);
      remove_existing = λ u t i w d ready old.
          let removed = remove-found server u t i w.pg d ready.0 ready.1 old in
          (ground (arith, removed.0), removed.1, removed.2, (removed.3, removed.4), same_cache w _);
      remove_others =
          λ u u' t t' i i' w ready ne. remove_others server u u' t t' i i' w.pg ready.0 ne;
      remove_absent =
          λ u t i w ready new. ground (arith, remove-absent server u t i w.pg ready.0 new);
    }

    -- the wired service as a `Backend`
    unfoldable pub wired_backend :
        ((l : Like) → server.row_order (l ∷ []) ≡ l ∷ [])
        → ((mutex : Mutex) (s : State (World R)) → until_granted mutex s ≡ s)
        → Backend svc
    unfolding service
    wired_backend alone quiet = record {
      view = wired_view;
      cache = cache_laws;
      db = db_laws alone;
      quiet = quiet;
    }
