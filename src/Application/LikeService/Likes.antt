-- ===== src/Application/LikeService/Likes.antt =====
-- `add_like`, `remove_like` and `get_like_status`.
use be_in_crypto_social_api.Prelude.{ℕ, Bool, true, false, none, some, if◌then◌else◌, ◌==◌}
use be_in_crypto_social_api.Prelude.Exec.{Result, ok, err, pure, gets, modify, attempt, ◌>>=◌, ◌>>◌}
use be_in_crypto_social_api.Domain.Errors.{DomainError}
use be_in_crypto_social_api.Domain.Model.{DateTime, ContentId, ContentType, UserId, Like}
use be_in_crypto_social_api.Domain.Ports.{Call}
use be_in_crypto_social_api.Api.Dto.{like, unlike, UnlikeResponse, StatusResponse}
use be_in_crypto_social_api.Application.Commands.{AddLikeCommand, AddLikeCommandResult}
use be_in_crypto_social_api.Application.LikeService.Service.{
  LikeService, State, on_world, send_sse_event,
}
use be_in_crypto_social_api.Application.LikeService.Counts.{get_like_count_with_fallback}

module _ {W : Type 0} (svc : LikeService W) where
  -- the cache's answer, or else the database's count
  abbrev or_db_count : ContentType → ContentId → Result DomainError ℕ → Call (State W) ℕ
  or_db_count c_type c_id (ok new_count) = pure new_count
  or_db_count c_type c_id (err _) = on_world (svc.db_repo.get_likes_count c_type c_id)

  -- the `if already_exists` of `add_like`: the count and `created_at`
  unfoldable pub count_after_save : AddLikeCommand → DateTime → Bool → Call (State W) (ℕ × DateTime)
  count_after_save cmd created_at true = do
    count ← get_like_count_with_fallback svc cmd.content_type cmd.content_id
    existed_like ← on_world (svc.db_repo.get_like cmd.user_id cmd.content_type cmd.content_id)
    pure (count, existed_like.created_at)
  count_after_save cmd created_at false = do
    incremented ← attempt (on_world (svc.cache_repo.increment cmd.content_type cmd.content_id))
    count ← or_db_count cmd.content_type cmd.content_id incremented
    pure (count, created_at)

  unfoldable pub add_like : AddLikeCommand → Call (State W) AddLikeCommandResult
  add_like cmd = do
    _ ← on_world (svc.extern_repo.validate_content cmd.content_type cmd.content_id)
    created_at ← gets (λ s. svc.now s.world)
    already_exists ← on_world (
        svc.db_repo.save (record {
          id = 0;
          user_id = cmd.user_id;
          content_type = cmd.content_type;
          content_id = cmd.content_id;
          created_at = created_at;
        }))
    (count, liked_at) ← count_after_save cmd created_at already_exists
    modify (send_sse_event svc cmd.content_id cmd.content_type cmd.user_id count like)
    pure (record {
      liked = true;
      already_existed = already_exists;
      count = count;
      liked_at = liked_at;
    })

  module _ (user_id : UserId) (content_type : ContentType) (content_id : ContentId) where
    -- the `if curr_count != 0` of `remove_like`
    unfoldable pub decrement_count : ℕ → Call (State W) ℕ
    decrement_count curr_count = if curr_count == 0 then pure curr_count else (do
      decremented ← attempt (on_world (svc.cache_repo.decrement content_type content_id))
      or_db_count content_type content_id decremented)

    -- what `remove_like` does after the two reads
    unfoldable pub finish_remove : Bool → ℕ → Call (State W) UnlikeResponse
    unfolding decrement_count
    finish_remove false curr_count =
        pure (record { liked = false; was_liked = false; count = curr_count })
    finish_remove true curr_count = do
      count ← decrement_count curr_count
      modify (send_sse_event svc content_id content_type user_id count unlike)
      pure (record { liked = false; was_liked = true; count = count })

    unfoldable pub remove_like : Call (State W) UnlikeResponse
    remove_like = do
      _ ← on_world (svc.extern_repo.validate_content content_type content_id)
      was_liked ← on_world (svc.db_repo.remove user_id content_type content_id)
      curr_count ← get_like_count_with_fallback svc content_type content_id
      finish_remove was_liked curr_count

    abbrev status_of : Result DomainError Like → StatusResponse
    status_of (ok existing_like) = record { liked = true; liked_at = some existing_like.created_at }
    status_of (err _) = record { liked = false; liked_at = none }

    unfoldable pub get_like_status : Call (State W) StatusResponse
    get_like_status = do
      existing_like ← attempt (on_world (svc.db_repo.get_like user_id content_type content_id))
      pure (status_of existing_like)
