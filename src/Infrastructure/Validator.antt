-- ===== src/Infrastructure/Validator.antt =====
-- social_api/src/infrastructure/clients/http_external_validator.rs. The world holds the breaker,
-- the keys in flight, and the world `W` of the cache and the services.
pub mod Caching
pub mod Denials
pub mod Sharing
use be_in_crypto_social_api.Prelude.{
  ℕ, zero, suc, Text, Text-discrete, codes, List, [], ◌∷◌, ◌++◌, map, Option, none, some, Bool,
  true, false, ltb, leb, ◌&&◌, ◌==◌, if◌then◌else◌, get, insert, remove,
}
use be_in_crypto_social_api.Prelude.Exec.{
  Result, ok, err, Exec, to_option, pure, throw, lift, modify, attempt, ◌>>=◌, ◌>>◌,
}
use be_in_crypto_social_api.Domain.Errors.{
  DomainError, unknown_content_type, content_not_found, dependency_unavailable,
  dependency_not_found, dependency_deserialize_error, dependency_healt_error,
}
use be_in_crypto_social_api.Domain.Model.{Uuid, ContentId, ContentType, UserId}
use be_in_crypto_social_api.Domain.Ports.{
  LikeCacheRepository, ValidationResult, valid, not_found, ExternalValidator, Call,
}
use be_in_crypto_social_api.Infrastructure.Dto.{UserDto, ContentDto}
use be_in_crypto_social_api.Infrastructure.Breaker
use be_in_crypto_social_api.Infrastructure.Breaker.{CircuitBreaker}

abbrev pub profile_api : Text
profile_api = codes "Profile API"

-- A response of an HTTP service: its status, and what `response.json()` reads of its body, as a
-- `UserDto` and as a `ContentDto`.
pub record Response : Type 0 where
  pub status : ℕ
  pub as_user : Option UserDto
  pub as_content : Option ContentDto

-- The struct, with what it takes from the crates: `get` sends a request to a URL, with a bearer
-- token or without, and may fail to connect; the codecs of a cached result; the `Display` of a
-- UUID and the upper case of a text; the clock in seconds; and what the other tasks do in 50 ms.
pub record HttpExternalValidator (W : Type 0) : Type 0 where
  pub profile_service_url : Text
  pub content_apis : List (Text × Text)
  pub cache_repo : LikeCacheRepository W
  pub send : (url : Text) → (bearer : Option Text) → Exec Text W Response
  pub to_json : ValidationResult → Option Text
  pub from_json : Text → Option ValidationResult
  pub uuid_text : Uuid → Text
  pub to_uppercase : Text → Text
  pub seconds : W → ℕ

-- The world of the validator: its breaker and its set `single_flight_lock` beside `W`.
pub record Flight (W : Type 0) : Type 0 where
  pub breaker : CircuitBreaker
  pub in_flight : List (Text × Unit {0})
  pub world : W

-- the state of a validator that `HttpExternalValidator::new` has made, with the breaker of the
-- environment
unfoldable pub new : {W : Type 0} → CircuitBreaker → W → Flight W
new breaker w = record { breaker = breaker; in_flight = []; world = w }

module _ {E W : Type 0} where
  abbrev pub on_world : {A : Type 0} → Exec E W A → Exec E (Flight W) A
  on_world m s = let (r, w) = m s.world in (r, record s { world = w })

abbrev pub user_id_of : Response → Option Uuid
user_id_of response = elim response.as_user [
  | none ↦ none
  | some user_data ↦ some user_data.user_id
]

abbrev pub content_id_of : Response → Option Uuid
content_id_of response = elim response.as_content [ none ↦ none | some content ↦ some content.id ]

abbrev is_success : ℕ → Bool
is_success status = leb 200 status && ltb status 300

abbrev or_deserialize_error : Text → Option Uuid → Result DomainError Uuid
or_deserialize_error service none = err (dependency_deserialize_error service)
or_deserialize_error service (some uuid) = ok uuid

-- the `match response.status()` of both calls, which differ in what they read and in their 404
unfoldable pub read_response :
    (Response → Option Uuid) → Text → DomainError → Response → Result DomainError Uuid
read_response read service missing response =
    if is_success response.status
    then or_deserialize_error service (read response)
    else if response.status == 404
    then err missing
    else err (dependency_unavailable service)

abbrev or_unavailable :
    (Response → Option Uuid) → Text → DomainError → Result Text Response → Result DomainError Uuid
or_unavailable read service missing (ok response) = read_response read service missing response
or_unavailable read service missing (err _) = err (dependency_unavailable service)

module _ {W : Type 0} (v : HttpExternalValidator W) where
  -- the closure given to the breaker
  unfoldable pub request :
      (Response → Option Uuid) → Text → DomainError → Text → Option Text → Call W Uuid
  unfolding read_response
  request read service missing url bearer w =
      let (r, w') = v.send url bearer w in (or_unavailable read service missing r, w')

  -- `self.breaker.call(…)`
  unfoldable pub through_breaker : Call W Uuid → Call (Flight W) Uuid
  through_breaker f s =
      let (r, (breaker, w)) = Breaker.call v.seconds f (s.breaker, s.world) in
      (r, record s { breaker = breaker; world = w })

  abbrev parsed : Option Text → Option ValidationResult
  parsed none = none
  parsed (some text) = v.from_json text

  abbrev flatten : Option (Option Text) → Option Text
  flatten none = none
  flatten (some o) = o

  -- `.await.ok().flatten().and_then(…)`
  unfoldable pub get_cached_validation : Text → W → Option ValidationResult × W
  get_cached_validation key w =
      let (r, w') = v.cache_repo.get_string key w in (parsed (flatten (to_option r)), w')

  abbrev set_if : Option Text → Text → ℕ → W → W
  set_if none key ttl w = w
  set_if (some json) key ttl w = (v.cache_repo.set_string key json ttl w).1

  unfoldable pub set_cached_validation : Text → ValidationResult → ℕ → W → W
  set_cached_validation key result ttl w = set_if (v.to_json result) key ttl w

  unfoldable pub call_profile_api : UserId → Call (Flight W) Uuid
  call_profile_api token =
      let url = v.profile_service_url ++ codes "/v1/auth/validate" in
      through_breaker (
        request user_id_of profile_api (dependency_not_found profile_api) url
          (some (v.uuid_text token.uuid)))

  unfoldable pub call_at : ContentType → ContentId → Option Text → Call (Flight W) Uuid
  call_at t i none = throw (unknown_content_type t.as_str)
  call_at t i (some base_url) =
      let url = base_url ++ (codes "/v1/" ++ (t.as_str ++ (codes "/" ++ v.uuid_text i.uuid))) in
      let service_name = v.to_uppercase t.as_str ++ codes " API" in
      through_breaker (
        request content_id_of service_name (content_not_found t.as_str (v.uuid_text i.uuid)) url
          none)

  -- the URL is looked up before the breaker is asked
  unfoldable pub call_content_api : ContentType → ContentId → Call (Flight W) Uuid
  unfolding call_at
  call_content_api t i = call_at t i (get Text-discrete t.as_str v.content_apis)

  unfoldable pub user_key : UserId → Text
  user_key token = codes "val:user:" ++ v.uuid_text token.uuid

  unfoldable pub content_key : ContentType → ContentId → Text
  content_key t i = codes "val:content:" ++ (t.as_str ++ (codes ":" ++ v.uuid_text i.uuid))

  -- the `if let Ok(user_id) = result`
  abbrev store_user : Text → Result DomainError Uuid → W → W
  store_user key (ok user_id) w = set_cached_validation key (valid user_id) 300 w
  store_user key (err _) w = w

  abbrev ask_profile : UserId → Call (Flight W) Uuid
  ask_profile token s =
      let (r, s') = call_profile_api token s in
      (r, record s' { world = store_user (user_key token) r s'.world })

  -- only a cached `Valid` is used
  abbrev user_or_ask : UserId → Option ValidationResult → Call (Flight W) Uuid
  user_or_ask token (some (valid user_id)) = pure user_id
  user_or_ask token (some not_found) = ask_profile token
  user_or_ask token none = ask_profile token

  unfoldable pub validate_user : UserId → Call (Flight W) Uuid
  validate_user token s =
      let (cached, w) = get_cached_validation (user_key token) s.world in
      user_or_ask token cached (record s { world = w })

  -- the `match &result` of `validate_content`
  unfoldable pub store_content : Text → Result DomainError Uuid → W → W
  store_content key (ok uuid) w = set_cached_validation key (valid uuid) 3600 w
  store_content key (err (content_not_found _ _)) w = set_cached_validation key not_found 300 w
  store_content key (err _) w = w

  -- from the call to the end of `validate_content`, with the key in flight
  unfoldable pub fetch_content : ContentType → ContentId → Call (Flight W) Uuid
  unfolding store_content
  fetch_content t i s =
      let (r, s') = call_content_api t i s in
      let key = content_key t i in
      (
        r,
        record s' {
          world = store_content key r s'.world;
          in_flight = remove Text-discrete key s'.in_flight;
        },
      )

  abbrev pub answer : ContentType → ContentId → ValidationResult → Result DomainError Uuid
  answer t i (valid uuid) = ok uuid
  answer t i not_found = err (content_not_found t.as_str (v.uuid_text i.uuid))

  abbrev pub enter : Text → Flight W → Flight W
  enter key s = record s { in_flight = insert Text-discrete key tt s.in_flight }

  abbrev Waiting : Type 0
  Waiting = Flight W → Option (Result DomainError Uuid × Flight W)

  -- The `if !self.single_flight_lock.insert(…)`: who finds the key in flight waits, who does not
  -- puts it there and fetches.
  abbrev fetch_or_wait : Waiting → ContentType → ContentId → Option (Unit {0}) → Waiting
  fetch_or_wait retry t i (some _) s = retry s
  fetch_or_wait retry t i none s = some (fetch_content t i (enter (content_key t i) s))

  abbrev answer_or : Waiting → ContentType → ContentId → Option ValidationResult → Waiting
  answer_or retry t i (some res) s = some (answer t i res, s)
  answer_or retry t i none s =
      fetch_or_wait retry t i (get Text-discrete (content_key t i) s.in_flight) s

  -- the body of `validate_content`, over its recursive call
  unfoldable pub try_content : Waiting → ContentType → ContentId → Waiting
  try_content retry t i s =
      let (cached, w) = get_cached_validation (content_key t i) s.world in
      answer_or retry t i cached (record s { world = w })

  -- `validate_content`. Each wait takes an element of the schedule, which says what the other
  -- tasks do in those 50 ms; `none` means that the schedule ended while it still waited.
  unfoldable pub validate_content : List (Flight W → Flight W) → ContentType → ContentId → Waiting
  unfolding try_content
  validate_content [] t i s = try_content (λ _. none) t i s
  validate_content (others ∷ schedule) t i s =
      try_content (λ s'. validate_content schedule t i (others s')) t i s

  unfoldable pub health_check : Call (Flight W) (Unit {0})
  health_check s =
      let url = v.profile_service_url ++ codes "/v1/auth/validate" in
      let (r, w) = v.send url none s.world in
      (elim r [ ok _ ↦ ok tt | err e ↦ err (dependency_healt_error e) ], record s { world = w })
