-- ===== src/Tests/Likes.antt =====
-- The likes of post 7: Alice's is there, Bob's comes and goes.
use be_in_crypto_social_api.Prelude.{
  ◌+◌, ◌-◌, ◌≡◌, ◌≢◌, refl, Bool, [], ◌∷◌, some, true, false, get, arith,
}
use be_in_crypto_social_api.Prelude.Exec.{ok}
use be_in_crypto_social_api.Domain.Model.{ContentKey-discrete}
use be_in_crypto_social_api.Application.Commands.{AddLikeCommand}
use be_in_crypto_social_api.Application.LikeService.Likes.{add_like, remove_like}
use be_in_crypto_social_api.Application.LikeService.Counts.{get_like_count_with_fallback}
use be_in_crypto_social_api.Application.LikeService.Interruption.{fetch_while, lost_like}
use be_in_crypto_social_api.Application.LikeService.Drift.{
  add_like-online, add_like-again, remove_like-cold,
}
use be_in_crypto_social_api.Infrastructure.Postgres.Sql.{of_like, count_likes}
use be_in_crypto_social_api.Infrastructure.Postgres.Table.{liked_at}
use be_in_crypto_social_api.Infrastructure.Redis.Keys.{format_count_key}
use be_in_crypto_social_api.Infrastructure.Wiring.{World}
use be_in_crypto_social_api.Infrastructure.Wiring.Refinement.{wired_backend}
use be_in_crypto_social_api.Application.LikeService.Service.{State}
use be_in_crypto_social_api.Tests.Fixtures.{
  Shelf, svc, backend, redis_laws, state_of, like_by, alice, bob, post, seven, empty, counted,
}

abbrev command : AddLikeCommand
command = record { user_id = bob; content_id = seven; content_type = post }

-- Alice and Bob like the post, and the cache has counted both
abbrev both : State (World Shelf)
both = state_of (like_by alice ∷ like_by bob ∷ []) true (counted 2)

-- the same rows, and nothing is cached
abbrev cold : State (World Shelf)
cold = state_of (like_by alice ∷ like_by bob ∷ []) true empty

-- Alice's row only
abbrev alone : Bool → Shelf → State (World Shelf)
alone conn shelf = state_of (like_by alice ∷ []) conn shelf

remove_like-cold_example :
    let (r, s') = remove_like svc bob post seven cold in
    let n = backend.view.total s'.world post seven in
    (r ≡ ok (record { liked = false; was_liked = true; count = n - 1 }))
    × (backend.view.cached s'.world post seven ≡ some (n - 1))
    × (n ≢ 0)
    × (backend.view.total cold.world post seven ≡ n + 1)
unfolding backend wired_backend redis_laws liked_at of_like count_likes format_count_key get
    ContentKey-discrete
remove_like-cold_example =
    remove_like-cold svc backend bob post seven cold refl (refl, (refl, (refl, tt))) refl 10 refl
      refl (omega arith)

add_like-online_example :
    let (r, s') = add_like svc command (alone true empty) in
    (r ≡ ok (record { liked = true; already_existed = false; count = 1; liked_at = 1000 }))
    × (backend.view.cached s'.world post seven ≡ some 1)
    × (backend.view.total s'.world post seven
        ≡ backend.view.total (alone true empty).world post seven + 1)
unfolding backend wired_backend redis_laws liked_at of_like count_likes format_count_key get
    ContentKey-discrete
add_like-online_example =
    add_like-online svc backend command (alone true empty) refl (refl, (refl, tt)) refl refl
      (omega arith)

add_like-again_example :
    let (r, s') = add_like svc command both in
    (r ≡ ok (record { liked = true; already_existed = true; count = 2; liked_at = 10 }))
    × (s'.world ≡ both.world)
unfolding backend wired_backend redis_laws liked_at of_like count_likes format_count_key get
    ContentKey-discrete
add_like-again_example =
    add_like-again svc backend command both 10 2 refl (refl, (refl, (refl, tt))) refl refl refl

lost_like_example :
    let (r, s') = fetch_while svc post seven (λ s. (add_like svc command s).1) (alone true empty) in
    (r ≡ ok 1)
    × (backend.view.total s'.world post seven ≡ 2)
    × (get_like_count_with_fallback svc post seven s' ≡ (ok 1, s'))
unfolding backend wired_backend redis_laws liked_at of_like count_likes format_count_key get
    ContentKey-discrete
lost_like_example =
    lost_like svc backend command (alone true empty) refl (refl, (refl, tt)) refl refl (omega arith)
