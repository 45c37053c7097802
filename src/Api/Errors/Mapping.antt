-- ===== src/Api/Errors/Mapping.antt =====
-- Which statuses the failures of the service become.
use be_in_crypto_social_api.Prelude.{Text, ◌≡◌, ◌⊎◌, ◌↔◌, refl, arith}
use be_in_crypto_social_api.Domain.Errors.{DomainError, dependency_unavailable}
use be_in_crypto_social_api.Api.Errors.{classify}

-- The status of an error is one of six, and 503 exactly for an unavailable dependency.
pub classify-status :
    (e : DomainError)
    → let status = (classify e).0 in
      ((status ≡ 400)
        ⊎ ((status ≡ 401)
            ⊎ ((status ≡ 404) ⊎ ((status ≡ 429) ⊎ ((status ≡ 500) ⊎ (status ≡ 503))))))
      × ((status ≡ 503) ↔ ((service : Text) × (e ≡ dependency_unavailable service)))
unfolding classify
classify-status (dependency_unavailable service) = (omega arith, (λ _. (service, refl), λ _. refl))
classify-status _ = (omega arith, (λ h. absurd (omega (arith, h)), λ (service, e). cc))
