-- ===== src/Infrastructure/Dto.antt =====
-- social_api/src/infrastructure/dto.rs: what the profile service and the content services send.
use be_in_crypto_social_api.Prelude.{Text, Bool}
use be_in_crypto_social_api.Domain.Model.{Uuid}

pub record UserDto : Type 0 where
  pub user_id : Uuid
  pub display_name : Text
  pub valid : Bool

pub record ContentDto : Type 0 where
  pub id : Uuid
  pub content_type : Text
