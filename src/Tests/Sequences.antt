-- ===== src/Tests/Sequences.antt =====
-- Requests one after the other: likes of post 7, and a walk through a user's likes.
use be_in_crypto_social_api.Prelude.{
  ◌≡◌, refl, List, [], ◌∷◌, map, select, ◌&&◌, none, some, true, inl, get, arith,
}
use be_in_crypto_social_api.Domain.Model.{Uuid, DateTime, UserId, Like, ContentKey-discrete}
use be_in_crypto_social_api.Application.LikeService.Service.{State}
use be_in_crypto_social_api.Application.LikeService.Sequence.{
  Action, like_by, unlike_by, Ideal, Follows,
}
use be_in_crypto_social_api.Application.LikeService.Sequence.Runs.{follows}
use be_in_crypto_social_api.Infrastructure.Postgres.Sql.{
  of_like, of_user, of_type, order_desc, user_likes, count_likes,
}
use be_in_crypto_social_api.Infrastructure.Postgres.Table.{liked_at}
use be_in_crypto_social_api.Infrastructure.Redis.Keys.{format_count_key}
use be_in_crypto_social_api.Infrastructure.Wiring.{World, service}
use be_in_crypto_social_api.Infrastructure.Wiring.Walk.{walk, walk_complete}
use be_in_crypto_social_api.Infrastructure.Postgres.Order.{IsDesc}
use be_in_crypto_social_api.Tests.Stores.{codec, codec_laws}
use mathlib.Core.List.{Perm}
use be_in_crypto_social_api.Api.Dto.{liked_item}
use be_in_crypto_social_api.Infrastructure.Wiring.Refinement.{wired_backend}
use be_in_crypto_social_api.Tests.Fixtures.{
  Shelf, svc, server, repository, accepting, uuid_text, like_by as row_by, empty, backend,
  redis_laws, state_of, alice, bob, post, seven, counted,
}

abbrev requests : List Action
requests =
    like_by bob
    ∷ like_by alice
    ∷ like_by bob
    ∷ unlike_by alice
    ∷ unlike_by alice
    ∷ unlike_by bob
    ∷ []

abbrev fresh : State (World Shelf)
fresh = state_of [] true (counted 0)

abbrev nobody : Ideal
nobody = record { count = 0; liked = λ u. none }

follows_example : Follows svc backend post seven requests fresh nobody
unfolding backend wired_backend redis_laws liked_at of_like count_likes format_count_key get
    ContentKey-discrete
follows_example =
    follows svc backend post seven (λ w. refl) requests fresh nobody
      (record { ready = (refl, tt); counts = refl; likes = λ u. refl; cache = inl (refl, refl) })
      (omega arith)

abbrev like_at : DateTime → Uuid → UserId → Like
like_at t id u = record (row_by alice) { id = id; user_id = u; created_at = t }

-- Alice's three likes, two of one time, and one of Bob's between them
abbrev shelf_of_likes : State (World Shelf)
shelf_of_likes =
    state_of (like_at 10 4 alice ∷ like_at 20 5 alice ∷ like_at 15 6 bob ∷ like_at 20 7 alice ∷ [])
      true empty

walk_complete_example :
    (ls : List Like) × (walk codec svc alice none 2 9 none shelf_of_likes
      ≡ some (map (liked_item uuid_text) ls))
    × IsDesc ls
    × Perm ls (select (λ l. of_user alice l && true) shelf_of_likes.world.pg.likes)
unfolding service user_likes of_user of_type order_desc
walk_complete_example =
    walk_complete codec server repository accepting (λ w. 1000) (λ mutex s. s) alice none 1
      shelf_of_likes codec_laws refl (omega arith) (omega arith) 9 (omega arith)
