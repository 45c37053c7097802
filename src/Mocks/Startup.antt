-- ===== src/Mocks/Startup.antt =====
-- `main` of mocks/src/main.rs, up to its loop that serves; a panic is none.
use be_in_crypto_social_api.Prelude.{
  Text, codes, ◌≡◌, refl, ◌∙◌, ◌++◌, Option, Option-cases, inl, inr, none, some, arith,
}
use be_in_crypto_social_api.Prelude.Options.{◌>>=◌}
use be_in_crypto_social_api.Domain.Model.{Uuid}
use be_in_crypto_social_api.Mocks.{AppState, new, Route, route_of}

-- the service that listens: its address, its one route, and its state
pub record Service : Type 0 where
  pub addr : Text
  pub route : Route
  pub app_state : AppState

abbrev or_default : Text → Option Text → Text
or_default default none = default
or_default default (some value) = value

-- The variables of the environment, and whether an address can be bound.
module _ (parse_str : Text → Option Uuid) (var : Text → Option Text)
    (bind : Text → Option (Unit {0})) where
  -- from the state to the listener; the port is read once more here
  unfoldable pub listen : Route → Option Service
  listen route = do
    app_state ← new parse_str
    let port = or_default (codes "8081") (var (codes "PORT"))
    let addr = codes "0.0.0.0:" ++ port
    _ ← bind addr
    some (record { addr = addr; route = route; app_state = app_state })

  unfoldable pub main : Option Service
  unfolding listen
  main = do
    mock_type ← var (codes "MOCK_TYPE")
    _ ← var (codes "PORT")
    route ← route_of mock_type
    listen route

  listen-addr :
      (route : Route) (service : Service)
      → listen route ≡ some service
      → service.addr ≡ codes "0.0.0.0:" ++ or_default (codes "8081") (var (codes "PORT"))
  unfolding listen
  listen-addr route service started = elim (Option-cases (new parse_str)) [
    | inl e ↦ absurd (ground (arith, started, e))
    | inr (app_state, e) ↦
        let addr = codes "0.0.0.0:" ++ or_default (codes "8081") (var (codes "PORT")) in
        elim (Option-cases (bind addr)) [
          | inl refused ↦ absurd (ground (arith, started, e, refused))
          | inr (_, bound) ↦ ground (arith, started, e, bound)
        ]
  ]

  -- A mock that starts listens on the port of the environment: the default 8081 is never used.
  pub main-port :
      (service : Service)
      → main ≡ some service
      → (port : Text) × (var (codes "PORT") ≡ some port) × (service.addr ≡ codes "0.0.0.0:" ++ port)
  unfolding main
  main-port service started = elim (Option-cases (var (codes "MOCK_TYPE"))) [
    | inl e ↦ absurd (ground (arith, started, e))
    | inr (mock_type, e) ↦ elim (Option-cases (var (codes "PORT"))) [
      | inl e₁ ↦ absurd (ground (arith, started, e, e₁))
      | inr (port, e₁) ↦ elim (Option-cases (route_of mock_type)) [
        | inl e₂ ↦ absurd (ground (arith, started, e, e₁, e₂))
        | inr (route, e₂) ↦
            let here : listen route ≡ some service = rw (← started) (rw (e, e₁, e₂) refl) in
            (port, e₁, listen-addr route service here ∙ rw e₁ refl)
      ]
    ]
  ]
