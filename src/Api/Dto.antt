-- ===== src/Api/Dto.antt =====
-- social_api/src/api/dto.rs: requests, responses and events. The base64 and JSON codecs of
-- the crates `base64` and `serde_json` are parameters.
use be_in_crypto_social_api.Prelude.{ℕ, ℤ, Text, codes, List, Bool, Option, none, some}
use be_in_crypto_social_api.Prelude.Exec.{Result, ok, err}
use be_in_crypto_social_api.Domain.Errors.{DomainError, invalid_cursor}
use be_in_crypto_social_api.Domain.Model.{Uuid, DateTime, ContentId, ContentType, UserId, Like}

pub record LikeRequest : Type 0 where
  pub content_type : ContentType
  pub content_id : ContentId

pub record LikeResponse : Type 0 where
  pub liked : Bool
  pub already_existed : Bool
  pub count : ℕ
  pub liked_at : DateTime

pub record UnlikeResponse : Type 0 where
  pub liked : Bool
  pub was_liked : Bool
  pub count : ℕ

pub record CountResponse : Type 0 where
  pub content_type : Text
  pub content_id : Text
  pub count : ℕ

pub record StatusResponse : Type 0 where
  pub liked : Bool
  pub liked_at : Option DateTime

pub record ContentItem : Type 0 where
  pub content_type : ContentType
  pub content_id : ContentId

pub record BatchRequest : Type 0 where
  pub items : List ContentItem

pub record ContentCount : Type 0 where
  pub content_type : ContentType
  pub content_id : ContentId
  pub count : ℕ

pub record ContentStatus : Type 0 where
  pub content_type : ContentType
  pub content_id : ContentId
  pub liked : Bool
  pub liked_at : Option DateTime

pub record BatchStatusResponse : Type 0 where
  pub results : List ContentStatus

pub record UserLikesQuery : Type 0 where
  pub content_type : Option Text
  pub cursor : Option Text
  pub limit : Option ℕ

pub record LikedItemDto : Type 0 where
  pub content_type : Text
  pub content_id : Text
  pub liked_at : DateTime

pub record UserLikesResponse : Type 0 where
  pub items : List LikedItemDto
  pub next_cursor : Option Text

pub record PaginationCursor : Type 0 where
  pub t : DateTime
  pub id : Uuid

pub record TopLikesQuery : Type 0 where
  pub content_type : Option Text
  pub window : Text
  pub limit : Option ℤ

pub record TopLikeItem : Type 0 where
  pub content_type : Text
  pub content_id : Text
  pub count : ℕ

pub record TopLikesResponse : Type 0 where
  pub window : Text
  pub content_type : ContentType
  pub items : List TopLikeItem

pub record StreamQuery : Type 0 where
  pub content_type : ContentType
  pub content_id : ContentId

pub data SseEventType : Type 0 where
  like unlike heartbeat shutdown : SseEventType

pub record SseLikeEvent : Type 0 where
  pub event : SseEventType
  pub content_type : Option ContentType
  pub content_id : Option ContentId
  pub user_id : Option UserId
  pub count : Option ℕ
  pub timestamp : DateTime

-- `SseLikeEvent::from_like`
unfoldable pub from_like : Like → ℕ → SseEventType → SseLikeEvent
from_like l count e_type = record {
  event = e_type;
  content_type = some l.content_type;
  content_id = some l.content_id;
  user_id = some l.user_id;
  count = some count;
  timestamp = l.created_at;
}

-- `From<Like> for LikedItemDto`, over the `Display` of `Uuid`
unfoldable pub liked_item : (Uuid → Text) → Like → LikedItemDto
liked_item uuid_text l = record {
  content_type = l.content_type.as_str;
  content_id = uuid_text l.content_id.uuid;
  liked_at = l.created_at;
}

-- The codecs that a cursor goes through: base64 over bytes, and JSON of a `PaginationCursor`.
pub record CursorCodec : Type 0 where
  pub base64_encode : List ℕ → Text
  pub base64_decode : Text → Option (List ℕ)
  pub to_json : PaginationCursor → List ℕ
  pub from_json : List ℕ → Option PaginationCursor

module _ (codec : CursorCodec) where
  -- the closure of `PaginationCursor::decode_opt`
  unfoldable pub decode_cursor : Text → Result DomainError PaginationCursor
  decode_cursor s = elim (codec.base64_decode s) [
    | none ↦ err (invalid_cursor (codes "Bad Base64"))
    | some decoded ↦ elim (codec.from_json decoded) [
      | none ↦ err (invalid_cursor (codes "Bad JSON"))
      | some cursor ↦ ok cursor
    ]
  ]

  -- `PaginationCursor::decode_opt`; the last step is `transpose`
  unfoldable pub decode_opt : Option Text → Result DomainError (Option PaginationCursor)
  unfolding decode_cursor
  decode_opt none = ok none
  decode_opt (some s) = elim (decode_cursor s) [ ok c ↦ ok (some c) | err e ↦ err e ]

  -- the two last lines of the cursor's construction in `get_user_liked_items`
  unfoldable pub encode_cursor : PaginationCursor → Text
  encode_cursor c = codec.base64_encode (codec.to_json c)
