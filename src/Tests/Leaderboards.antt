-- ===== src/Tests/Leaderboards.antt =====
-- The leaderboard of posts, where post 7 has two likes and post 8 has one.
use be_in_crypto_social_api.Prelude.{
  ℕ_discrete, pos, Text-discrete, codes, ◌≡◌, refl, sym, ◌∙◌, List, [], ◌∷◌, none, some, true, get,
  insert, get-insert_self, get-insert_ne,
}
use be_in_crypto_social_api.Prelude.Exec.{ok}
use be_in_crypto_social_api.Domain.Model.{ContentKey-discrete, Like, as_opt}
use be_in_crypto_social_api.Api.Dto.{TopLikeItem}
use be_in_crypto_social_api.Application.LikeService.Service.{LikeService, State, refresh}
use be_in_crypto_social_api.Application.LikeService.Leaderboard.{get_top_likes, window_since}
use be_in_crypto_social_api.Application.LikeService.Tasks.{run_task}
use be_in_crypto_social_api.Infrastructure.Postgres.Sql.{
  group_counts, order_counts, of_type, since_time,
}
use be_in_crypto_social_api.Infrastructure.Postgres.Repository
use be_in_crypto_social_api.Infrastructure.Redis.Keys.{format_lead_key}
use be_in_crypto_social_api.Infrastructure.Redis.Leaderboard.{StringLaws, get-set_leaderboard}
use be_in_crypto_social_api.Infrastructure.Redis.Repository.{
  RedisWorld, RedisLikeRepository, get_leaderboard_with_canary, set_leaderboard_with_canary,
}
use be_in_crypto_social_api.Infrastructure.Wiring.{World, service}
use be_in_crypto_social_api.Infrastructure.Wiring.Leaderboards.{refresh-served, first_limit-served}
use be_in_crypto_social_api.Tests.Fixtures.{
  Shelf, redis, server, repository, accepting, state_of, like_by, uuid_text, alice, bob, post,
  empty,
}

string_laws : StringLaws redis
unfolding Text-discrete
string_laws = record {
  value = λ r key. get Text-discrete key r.strings;
  mget_lem = λ k₁ k₂ r. refl;
  pipe_set_lem = λ k₁ v₁ k₂ v₂ ttl r apart. (
    refl,
    get-insert_ne Text-discrete k₂ k₁ v₂ (insert Text-discrete k₁ v₁ r.strings) (λ e. apart (sym e))
        ∙ get-insert_self Text-discrete k₁ v₁ r.strings,
    get-insert_self Text-discrete k₂ v₂ (insert Text-discrete k₁ v₁ r.strings),
  );
}

abbrev ranked : List TopLikeItem
ranked = record { content_type = codes "post"; content_id = uuid_text 7; count = 2 } ∷ []

-- a codec that knows one leaderboard
abbrev ranking : RedisLikeRepository Shelf
ranking = record repository {
  items_to_json = λ items. some (codes "[7]");
  items_from_json = λ json. some ranked;
}

abbrev ranking_svc : LikeService (World Shelf)
ranking_svc = service server ranking accepting (λ w. 1000) (λ mutex s. s)

abbrev on_eight : Like
on_eight = record (like_by bob) { content_id = record { uuid = 8 } }

abbrev uncached : State (World Shelf)
uncached = state_of (like_by alice ∷ like_by bob ∷ on_eight ∷ []) true empty

get-set_leaderboard_example :
    let w : RedisWorld Shelf = record { conn = true; server = empty } in
    let (stored, w') = set_leaderboard_with_canary ranking (codes "7d") post ranked 300 w in
    (stored ≡ ok tt)
    × (get_leaderboard_with_canary ranking (codes "7d") post w' ≡ (ok (some ranked, true), w'))
get-set_leaderboard_example =
    get-set_leaderboard ranking string_laws (codes "7d") post ranked (codes "[7]") 299
      (record { conn = true; server = empty }) refl refl refl

refresh-served_example :
    let s' = (run_task ranking_svc (refresh (codes "all") post none (pos 1)) uncached).1 in
    get_top_likes ranking_svc post (codes "all") (pos 50) s'
    ≡ (ok (record { window = codes "all"; content_type = post; items = ranked }), s')
unfolding Repository.get_top_likes Repository.query Repository.top_item window_since Text-discrete
    ℕ_discrete group_counts order_counts of_type since_time as_opt ContentKey-discrete
refresh-served_example =
    refresh-served server ranking string_laws accepting (λ w. 1000) (λ mutex s. s) post
      (codes "all") uncached none ranked (codes "[7]") refl refl refl refl none (pos 1) (pos 50)
      uncached.world.pg refl

first_limit-served_example :
    let (r, s') = get_top_likes ranking_svc post (codes "all") (pos 1) uncached in
    (r ≡ ok (record { window = codes "all"; content_type = post; items = ranked }))
    × (get_top_likes ranking_svc post (codes "all") (pos 50) s'
        ≡ (ok (record { window = codes "all"; content_type = post; items = ranked }), s'))
unfolding string_laws Repository.get_top_likes Repository.query get Repository.top_item window_since
    Text-discrete ℕ_discrete group_counts order_counts of_type since_time as_opt format_lead_key
    ContentKey-discrete
first_limit-served_example =
    first_limit-served server ranking string_laws accepting (λ w. 1000) (λ mutex s. s) post
      (codes "all") uncached none ranked (codes "[7]") refl refl refl refl (pos 1) (pos 50)
      uncached.world.pg refl refl
