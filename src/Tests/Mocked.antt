-- ===== src/Tests/Mocked.antt =====
-- The validator against mocks that know Alice and post 7.
use be_in_crypto_social_api.Prelude.{
  ℕ_discrete, Text, Text-discrete, codes, ◌≡◌, refl, [], ◌∷◌, ◌++◌, Option, none, some, or_zero,
  drop, sym, get, arith,
}
use be_in_crypto_social_api.Prelude.Exec.{ok}
use be_in_crypto_social_api.Domain.Model.{Uuid}
use be_in_crypto_social_api.Domain.Ports.{valid}
use be_in_crypto_social_api.Infrastructure.Breaker.{from_env}
use be_in_crypto_social_api.Infrastructure.Redis.Repository.{
  RedisWorld, redis_repository, get_string, send_or,
}
use be_in_crypto_social_api.Infrastructure.Validator.{
  HttpExternalValidator, Flight, Response, get_cached_validation, set_cached_validation, user_key,
  content_key, validate_user, validate_content,
}
use be_in_crypto_social_api.Mocks.{AppState, validate_token, check_content}
use be_in_crypto_social_api.Mocks.Validation.{
  as_response, AreReachable, validate_user-mock, validate_content-mock,
}
use be_in_crypto_social_api.Tests.Fixtures.{Shelf, uuid_text, alice, post, seven}
use be_in_crypto_social_api.Tests.Clients.{validator, flight, cache_with}

-- the text of a UUID begins with its number
abbrev parse_str : Text → Option Uuid
parse_str (u ∷ rest) = some u
parse_str [] = none

abbrev profiles : AppState
profiles = record { valid_tokens = (uuid_text 1, codes "tok_user_1") ∷ []; valid_content = [] }

abbrev contents : AppState
contents = record { valid_tokens = []; valid_content = 7 ∷ [] }

abbrev identifier : Text → Uuid
identifier text = or_zero (parse_str (drop 21 text))

-- what a mock answers: the profile mock if there is a token, else the content mock
abbrev answer : Text → Option Text → Response
answer url (some token) =
    as_response parse_str (validate_token (some (some (codes "Bearer " ++ token))) profiles)
answer url none = as_response parse_str (check_content (codes "post") (identifier url) contents)

abbrev mocked : HttpExternalValidator (RedisWorld Shelf)
mocked = record validator { send = λ url bearer w. (ok (answer url bearer), w) }

posts_only :
    (t base_url : Text)
    → get Text-discrete t validator.content_apis ≡ some base_url
    → (t ≡ codes "post") × (base_url ≡ codes "http://posts")
unfolding get
posts_only t base_url known = elim (Text-discrete (codes "post") t) [
  | yes e ↦ (sym e, ground (arith, known, e))
  | no ne ↦ absurd (ground (arith, known, ne))
]

reachable : AreReachable mocked parse_str profiles contents
reachable = record {
  profile = λ token w. refl;
  content = λ t i base_url w known.
      let (typed, based) = posts_only t.as_str base_url known in rw (typed, based) refl;
  parsed = λ u. refl;
}

validate_user-mock_example :
    let (r, s') = validate_user mocked alice (flight (from_env 3 30) []) in
    (r ≡ ok 1)
    × (s'.world
        ≡ set_cached_validation mocked (user_key mocked alice) (valid 1) 300 (cache_with []))
unfolding get_cached_validation user_key redis_repository get_string send_or Text-discrete
    ℕ_discrete get from_env
validate_user-mock_example =
    validate_user-mock mocked parse_str profiles contents reachable alice
      (flight (from_env 3 30) []) (cache_with []) (omega arith) refl

validate_content-mock_example :
    (s' : Flight (RedisWorld Shelf)) × (validate_content mocked [] post seven
        (flight (from_env 3 30) [])
      ≡ some (ok 7, s'))
    × (get Text-discrete (content_key mocked post seven) s'.in_flight ≡ none)
unfolding get_cached_validation content_key redis_repository get_string send_or Text-discrete
    ℕ_discrete get from_env
validate_content-mock_example =
    validate_content-mock mocked parse_str profiles contents reachable [] post seven
      (codes "http://posts") (flight (from_env 3 30) []) (cache_with []) refl (omega arith) refl
      refl
