-- ===== src/Application/Commands.antt =====
-- social_api/src/application/commands.rs, and `From<AddLikeCommandResult>` of api/dto.rs
use be_in_crypto_social_api.Prelude.{ℕ, Bool}
use be_in_crypto_social_api.Domain.Model.{DateTime, ContentId, ContentType, UserId}
use be_in_crypto_social_api.Api.Dto.{LikeRequest, LikeResponse}

pub record AddLikeCommand : Type 0 where
  pub user_id : UserId
  pub content_id : ContentId
  pub content_type : ContentType

-- `From<(UserId, LikeRequest)>`
unfoldable pub command_of : UserId → LikeRequest → AddLikeCommand
command_of user_id req = record {
  user_id = user_id;
  content_id = req.content_id;
  content_type = req.content_type;
}

pub record AddLikeCommandResult : Type 0 where
  pub liked : Bool
  pub already_existed : Bool
  pub count : ℕ
  pub liked_at : DateTime

-- `From<AddLikeCommandResult> for LikeResponse`
unfoldable pub response_of : AddLikeCommandResult → LikeResponse
response_of value = record {
  liked = value.liked;
  already_existed = value.already_existed;
  count = value.count;
  liked_at = value.liked_at;
}
