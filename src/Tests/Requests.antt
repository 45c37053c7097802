-- ===== src/Tests/Requests.antt =====
-- Requests of user 1, and events of post 7.
use be_in_crypto_social_api.Prelude.{ℕ, Text, codes, ◌≡◌, [], ◌∷◌, Option, none, some}
use be_in_crypto_social_api.Prelude.Exec.{Result, ok, pure}
use be_in_crypto_social_api.Domain.Model.{Uuid}
use be_in_crypto_social_api.Domain.Ports.{ExternalValidator}
use be_in_crypto_social_api.Api.Errors.{ApiError}
use be_in_crypto_social_api.Api.Middleware.{Request, bearer, strip_prefix}

abbrev pub parse_uuid : Text → Option Uuid
parse_uuid [] = none
parse_uuid (u ∷ rest) = some u

abbrev pub validator : ExternalValidator ℕ
validator = record {
  validate_user = λ token calls. (ok token.uuid, calls);
  validate_content = λ t i calls. (ok i.uuid, calls);
  health_check = pure tt;
}

abbrev handler : Request → ℕ → Result ApiError Text × ℕ
handler req calls = (ok (codes "done"), calls)

abbrev pub request : Text → Request
request header = record { authorization = some header; user_id = none; connect_ip = none }

other_scheme :
    (header : Text) → some (codes "Basic 9") ≡ some header → strip_prefix bearer header ≡ none
unfolding strip_prefix
other_scheme header h = cc
