-- ===== src/Mocks.antt =====
-- mocks/src: the servers that stand in for the profile service and for a content service, each a
-- run of one program that the variable `MOCK_TYPE` tells which to be. `parse_str` of the crate
-- `uuid` is a parameter.
pub mod Startup
pub mod Validation
use be_in_crypto_social_api.Prelude.{
  ℕ, ℕ_discrete, Text, Text-discrete, codes, List, [], ◌∷◌, Option, none, some, Bool, true, false,
  holds, ◌||◌, if◌then◌else◌, get, insert,
}
use be_in_crypto_social_api.Domain.Model.{Uuid}
use be_in_crypto_social_api.Api.Middleware.{bearer, strip_prefix}

-- mocks/src/state.rs
pub record AppState : Type 0 where
  pub valid_tokens : List (Text × Text)
  pub valid_content : List Uuid

-- the bodies of mocks/src/api/profile.rs and mocks/src/api/content.rs, and an empty one
pub record AuthResponse : Type 0 where
  pub user_id : Text
  pub display_name : Text
  pub valid : Bool

pub record AuthErrResponse : Type 0 where
  pub valid : Bool
  pub error : Text

pub record ContentResponse : Type 0 where
  pub id : Uuid
  pub content_type : Text

pub data Body : Type 0 where
  auth : AuthResponse → Body
  auth_err : AuthErrResponse → Body
  content : ContentResponse → Body
  empty : Body

pub record Answer : Type 0 where
  pub status : ℕ
  pub body : Body

abbrev contains : Uuid → List Uuid → Bool
contains id [] = false
contains id (other ∷ others) = holds (ℕ_discrete other id) || contains id others

module _ (parse_str : Text → Option Uuid) where
  abbrev with_content : Option Uuid → Option Uuid → Option AppState
  with_content (some first) (some second) = some (record {
    valid_tokens =
        insert Text-discrete (codes "550e8400-e29b-41d4-a716-446655440003") (codes "tok_user_3") (
          insert Text-discrete (codes "550e8400-e29b-41d4-a716-446655440002") (codes "tok_user_2") (
            insert Text-discrete (codes "550e8400-e29b-41d4-a716-446655440001") (codes "tok_user_1")
              []));
    valid_content = first ∷ second ∷ [];
  })
  with_content _ _ = none

  -- `AppState::new`; none is the panic of `unwrap`
  unfoldable pub new : Option AppState
  new =
      with_content (parse_str (codes "731b0395-4888-4822-b516-05b4b7bf2089"))
        (parse_str (codes "11111111-2222-3333-4444-555555555555"))

abbrev and_strip : Option (Option Text) → Option Text
and_strip (some (some header)) = strip_prefix bearer header
and_strip _ = none

abbrev rejected : Answer
rejected = record {
  status = 401;
  body = auth_err (record { valid = false; error = codes "invalid_token" });
}

abbrev pub accept : Text → Option Text → Answer
accept token (some display_name) = record {
  status = 200;
  body = auth (record { user_id = token; display_name = display_name; valid = true });
}
accept token none = rejected

-- The header `Authorization`, if it is there, as text, if it is one.
unfoldable pub validate_token : Option (Option Text) → AppState → Answer
unfolding strip_prefix
validate_token header state = elim (and_strip header) [
  | some token ↦ accept token (get Text-discrete token state.valid_tokens)
  | none ↦ rejected
]

unfoldable pub check_content : Text → Uuid → AppState → Answer
check_content content_type id state =
    if contains id state.valid_content
    then record { status = 200; body = content (record { id = id; content_type = content_type }) }
    else record { status = 404; body = empty }

pub data Route : Type 0 where
  auth_validate content_check : Route

-- the `match mock_type.as_str()` of mocks/src/main.rs; none is the panic
unfoldable pub route_of : Text → Option Route
route_of mock_type =
    if holds (Text-discrete mock_type (codes "profile"))
    then some auth_validate
    else if holds (Text-discrete mock_type (codes "content"))
    then some content_check
    else none
