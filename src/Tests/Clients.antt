-- ===== src/Tests/Clients.antt =====
-- The breaker and the validator against a profile service and a content service of posts.
use be_in_crypto_social_api.Prelude.{
  ℕ, ℕ_discrete, ◌+◌, Text, Text-discrete, codes, ◌≡◌, ◌≢◌, refl, List, [], ◌∷◌, ◌++◌, Option, none,
  some, true, zero, suc, get, arith,
}
use be_in_crypto_social_api.Prelude.Exec.{ok, err, Exec}
use be_in_crypto_social_api.Domain.Errors.{DomainError, dependency_unavailable}
use be_in_crypto_social_api.Domain.Model.{Uuid, UserId}
use be_in_crypto_social_api.Domain.Ports.{ValidationResult, valid, not_found}
use be_in_crypto_social_api.Infrastructure.Breaker.{
  CircuitBreaker, from_env, check_state, final_state, state_of_u8, note_error, record_failure,
  admit, settle, call,
}
use be_in_crypto_social_api.Infrastructure.Breaker.History.{run, ideal_run, run-ideal}
use be_in_crypto_social_api.Infrastructure.Breaker.History.Streaks.{ideal_state}
use be_in_crypto_social_api.Infrastructure.Breaker.Trips.{call-probe}
use be_in_crypto_social_api.Infrastructure.Redis.Repository.{
  RedisWorld, redis_repository, get_string, send_or,
}
use be_in_crypto_social_api.Infrastructure.Validator.{
  HttpExternalValidator, Flight, get_cached_validation, content_key, enter, call_content_api,
  validate_content, user_key, validate_user, answer, call_profile_api, through_breaker, request,
  read_response,
}
use be_in_crypto_social_api.Infrastructure.Validator.Caching.{validate_content-lands}
use be_in_crypto_social_api.Infrastructure.Validator.Sharing.{validate_content-shares}
use be_in_crypto_social_api.Infrastructure.Validator.Denials.{
  IsRejected, validate_users, rejected_tokens-trip,
}
use be_in_crypto_social_api.Tests.Fixtures.{
  alice, bob, Shelf, repository, uuid_text, post, seven, empty,
}

-- the world is the time; a call takes 5 seconds and finds its service unavailable
abbrev failing : Exec DomainError ℕ Uuid
failing t = (err (dependency_unavailable (codes "Profile API")), t + 5)

-- three failures within 30 seconds
abbrev tripped : CircuitBreaker
tripped = record { threshold = 3; timeout = 30; failures = 3; last_failure_time = 100; state = 1 }

run-ideal_example :
    let fs = failing ∷ failing ∷ [] in
    let p = run (λ t. t) fs (from_env 2 30, 100) in
    let q = ideal_run (λ t. t) 2 30 fs (record { count = 0; last = 0 }, 100) in
    (p.1 ≡ q.1) × ((t : ℕ) → (check_state t p.0).0 ≡ ideal_state 2 30 t q.0)
run-ideal_example = run-ideal (λ t. t) 2 30 (failing ∷ failing ∷ []) 100 (omega arith)

call-probe_example :
    let (r, (b', w')) = call (λ t. t) failing (tripped, 140) in
    (r ≡ err (dependency_unavailable (codes "Profile API")))
    × (w' ≡ 145)
    × ((d : Uuid) → (failing 140).0 ≡ ok d → b'.failures ≡ 0)
    × ((service : Text)
        → (failing 140).0 ≡ err (dependency_unavailable service)
        → (b'.failures ≡ 4) × (b'.last_failure_time ≡ w'))
call-probe_example =
    call-probe (λ t. t) failing tripped 140 (omega arith) (omega arith) (omega arith)

-- a validation is written as its number, and 0 says that the content was not found
abbrev pub written : ValidationResult → Option Text
written (valid uuid) = some (uuid ∷ [])
written not_found = some (0 ∷ [])

abbrev pub read : Text → Option ValidationResult
read (zero ∷ []) = some not_found
read (suc n ∷ []) = some (valid (suc n))
read _ = none

-- the content service knows every post
abbrev pub validator : HttpExternalValidator (RedisWorld Shelf)
validator = record {
  profile_service_url = codes "http://profile";
  content_apis = (codes "post", codes "http://posts") ∷ [];
  cache_repo = redis_repository repository;
  send = λ url bearer w. (
    ok (record {
      status = 200;
      as_user = none;
      as_content = some (record { id = 7; content_type = codes "post" });
    }),
    w,
  );
  to_json = written;
  from_json = read;
  uuid_text = uuid_text;
  to_uppercase = λ t. t;
  seconds = λ w. 110;
}

abbrev pub cache_with : List (Text × Text) → RedisWorld Shelf
cache_with strings = record { conn = true; server = record empty { strings = strings } }

abbrev pub flight : CircuitBreaker → List (Text × Text) → Flight (RedisWorld Shelf)
flight breaker strings = record { breaker = breaker; in_flight = []; world = cache_with strings }

abbrev remembered : List (Text × Text)
remembered = (codes "val:content:post:" ++ uuid_text 7, 7 ∷ []) ∷ []

validate_content-lands_example :
    let s = flight (from_env 3 30) [] in
    (s' : Flight (RedisWorld Shelf)) × (validate_content validator [] post seven s
      ≡ some (
        (call_content_api validator post seven
            (enter validator (content_key validator post seven) s)).0,
        s',
      ))
    × (get Text-discrete (content_key validator post seven) s'.in_flight ≡ none)
    × ((q : Text)
        → content_key validator post seven ≢ q
        → get Text-discrete q s'.in_flight ≡ get Text-discrete q s.in_flight)
unfolding get_cached_validation content_key redis_repository get_string send_or Text-discrete
    ℕ_discrete get
validate_content-lands_example =
    validate_content-lands validator post seven [] (flight (from_env 3 30) []) (cache_with []) refl
      refl

-- another validation holds the key, and its next turn writes the content to the cache
abbrev waiting : Flight (RedisWorld Shelf)
waiting = record {
  breaker = from_env 3 30;
  in_flight = (codes "val:content:post:" ++ uuid_text 7, tt) ∷ [];
  world = cache_with [];
}

abbrev other_lands : Flight (RedisWorld Shelf) → Flight (RedisWorld Shelf)
other_lands s = record s { in_flight = []; world = cache_with remembered }

validate_content-shares_example :
    validate_content validator (other_lands ∷ []) post seven waiting
    ≡ some (answer validator post seven (valid 7), other_lands waiting)
unfolding get_cached_validation content_key redis_repository get_string send_or Text-discrete
    ℕ_discrete get
validate_content-shares_example =
    validate_content-shares validator post seven (other_lands ∷ []) waiting (other_lands waiting)
      (valid 7) (cache_with [], refl, refl, (cache_with remembered, refl, refl))

-- a profile service that knows no token
abbrev strict : HttpExternalValidator (RedisWorld Shelf)
strict = record validator {
  send = λ url bearer w. (ok (record { status = 401; as_user = none; as_content = none }), w);
}

abbrev NothingCached : RedisWorld Shelf → Type 0
NothingCached w = w ≡ cache_with []

unknown : (token : UserId) → IsRejected strict NothingCached token
unfolding get_cached_validation user_key redis_repository get_string send_or Text-discrete
    ℕ_discrete get
unknown token w e =
    rw e
      (refl, (record { status = 401; as_user = none; as_content = none }, refl, refl), refl, refl)

abbrev after_two : Flight (RedisWorld Shelf)
after_two = validate_users strict (alice ∷ bob ∷ []) (flight (from_env 2 30) [])

rejected_tokens-trip_example :
    (s' : Flight (RedisWorld Shelf)) × (validate_content strict [] post seven after_two
      ≡ some (err (dependency_unavailable (codes "todo")), s'))
    × (s'.world ≡ cache_with [])
unfolding validate_users validate_user call_profile_api through_breaker request read_response call
    admit settle check_state final_state state_of_u8 note_error record_failure from_env
    get_cached_validation user_key content_key redis_repository get_string send_or Text-discrete
    ℕ_discrete get
rejected_tokens-trip_example =
    rejected_tokens-trip strict NothingCached 2 30 (alice ∷ bob ∷ []) (flight (from_env 2 30) [])
      refl refl (unknown alice, (unknown bob, tt)) (omega arith) (omega arith) [] post seven
      (codes "http://posts") (cache_with []) refl refl refl (omega arith)
