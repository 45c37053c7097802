-- ===== src/Api/RequestId.antt =====
-- social_api/src/api/request_id.rs: the identifier of a request, for its errors.
use be_in_crypto_social_api.Prelude.{Text, codes, Option, some}
use be_in_crypto_social_api.Prelude.Exec.{Result, ok}
use be_in_crypto_social_api.Api.Errors.{ApiError}

-- The extension of the crate `tower_http`, by what `to_str` gives of its header value: none where
-- that is not visible ASCII.
abbrev pub RequestId : Type 0
RequestId = Option Text

pub record ReqCtx : Type 0 where
  pub id : Text

-- the two `unwrap_or`
abbrev pub or_unknown : Option RequestId → Text
or_unknown (some (some id)) = id
or_unknown _ = codes "unknown"

-- `from_request_parts`, which never rejects
unfoldable pub from_request_parts : Option RequestId → Result ApiError ReqCtx
from_request_parts extension = ok (record { id = or_unknown extension })
