-- ===== src/Api/Handlers.antt =====
-- social_api/src/api/handlers.rs, less the SSE stream, and the readiness of api/health.rs: each
-- handler calls one method of the service, and its errors take the identifier of the request.
use be_in_crypto_social_api.Prelude.{ℕ, pos, Text, codes, List, Option, none, some}
use be_in_crypto_social_api.Prelude.Exec.{Result, ok, err, Exec}
use be_in_crypto_social_api.Domain.Errors.{DomainError, Failure, domain, panicked}
use be_in_crypto_social_api.Domain.Model.{ContentId, ContentType, UserId}
use be_in_crypto_social_api.Api.Dto.{
  LikeRequest, LikeResponse, UnlikeResponse, CountResponse, StatusResponse, BatchRequest,
  BatchStatusResponse, ContentCount, UserLikesQuery, UserLikesResponse, TopLikesQuery,
  TopLikesResponse, CursorCodec,
}
use be_in_crypto_social_api.Api.Errors.{ApiError}
use be_in_crypto_social_api.Application.Commands.{command_of, response_of}
use be_in_crypto_social_api.Application.LikeService.Service.{LikeService, State}
use be_in_crypto_social_api.Application.LikeService.Counts.{get_like_count}
use be_in_crypto_social_api.Application.LikeService.Likes.{add_like, remove_like, get_like_status}
use be_in_crypto_social_api.Application.LikeService.Batch.{get_likes_count_batch, get_batch_status}
use be_in_crypto_social_api.Application.LikeService.Listing.{get_user_liked_items}
use be_in_crypto_social_api.Application.LikeService.Leaderboard.{get_top_likes as service_top_likes}
use be_in_crypto_social_api.Application.LikeService.Tasks.{full_health_check}

-- What a handler leaves for the response: a status and a body, an error, or a dropped connection
-- after a panic.
pub data Reply (B : Type 0) : Type 0 where
  reply : (status : ℕ) → B → Reply B
  failed : ApiError → Reply B
  dropped : Reply B

-- `.await.map_err(|e| ApiError(e, ctx.id))?`, and the body made of the result
abbrev finish : {A B : Type 0} → Text → ℕ → (A → B) → Result DomainError A → Reply B
finish id status f (ok a) = reply status (f a)
finish id status f (err e) = failed (record { error = e; request_id = id })

abbrev respond : {S A B : Type 0} → Text → ℕ → (A → B) → Exec DomainError S A → S → Reply B × S
respond id status f m s = let (r, s') = m s in (finish id status f r, s')

abbrev same : {A : Type 0} → A → A
same a = a

abbrev or_default : {A : Type 0} → A → Option A → A
or_default d none = d
or_default d (some a) = a

abbrev finish_page : Text → Result Failure UserLikesResponse → Reply UserLikesResponse
finish_page id (ok page) = reply 200 page
finish_page id (err (domain e)) = failed (record { error = e; request_id = id })
finish_page id (err panicked) = dropped

-- `liveness` of api/health.rs, with the member of its JSON object
unfoldable pub liveness : Reply (Text × Text)
liveness = reply 200 (codes "status", codes "up")

module _ {W : Type 0} (svc : LikeService W) (id : Text) where
  unfoldable pub post_like : UserId → LikeRequest → State W → Reply LikeResponse × State W
  unfolding command_of response_of
  post_like user_id payload = respond id 201 response_of (add_like svc (command_of user_id payload))

  unfoldable pub delete_unlike :
      UserId → ContentType → ContentId → State W → Reply UnlikeResponse × State W
  delete_unlike user_id c_type c_id = respond id 200 same (remove_like svc user_id c_type c_id)

  unfoldable pub get_count : ContentType → ContentId → State W → Reply CountResponse × State W
  get_count c_type c_id = respond id 200 same (get_like_count svc c_type c_id)

  unfoldable pub get_status :
      UserId → ContentType → ContentId → State W → Reply StatusResponse × State W
  get_status user_id c_type c_id = respond id 200 same (get_like_status svc user_id c_type c_id)

  unfoldable pub get_count_batch : BatchRequest → State W → Reply (List ContentCount) × State W
  get_count_batch payload = respond id 200 same (get_likes_count_batch svc payload.items)

  unfoldable pub get_status_batch :
      UserId → BatchRequest → State W → Reply BatchStatusResponse × State W
  get_status_batch user_id payload =
      respond id 200 same (get_batch_status svc user_id payload.items)

  unfoldable pub get_user_likes :
      CursorCodec → UserId → UserLikesQuery → State W → Reply UserLikesResponse × State W
  get_user_likes codec user_id query s =
      let limit = or_default 20 query.limit in
      let (r, s') =
        get_user_liked_items codec svc user_id query.content_type query.cursor limit s in
      (finish_page id r, s')

  unfoldable pub get_top_likes : TopLikesQuery → State W → Reply TopLikesResponse × State W
  get_top_likes query =
      let limit = or_default (pos 10) query.limit in
      let c_type : ContentType = record { as_str = or_default (codes "all") query.content_type } in
      respond id 200 same (service_top_likes svc c_type query.window limit)

  unfoldable pub readiness : State W → Reply (Unit {0}) × State W
  readiness = respond id 200 same (full_health_check svc)
