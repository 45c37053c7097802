-- ===== src/Infrastructure/Validator/Sharing.antt =====
-- A validation that finds its key in flight, social_api/src/infrastructure/clients/http_external_validator.rs.
use be_in_crypto_social_api.Prelude.{Text-discrete, ◌≡◌, refl, List, [], ◌∷◌, none, some, get}
use be_in_crypto_social_api.Domain.Model.{ContentId, ContentType}
use be_in_crypto_social_api.Domain.Ports.{ValidationResult}
use be_in_crypto_social_api.Infrastructure.Validator.{
  HttpExternalValidator, Flight, get_cached_validation, content_key, answer, try_content,
  validate_content,
}

module _ {W : Type 0} (v : HttpExternalValidator W) (t : ContentType) (i : ContentId) where
  -- From the state, each look at the cache finds nothing and the key in flight, until after the last
  -- of the others' turns it finds the result, and leaves the state `end`.
  abbrev pub IsAwaited :
      List (Flight W → Flight W) → Flight W → ValidationResult → Flight W → Type 0
  IsAwaited [] s res end =
      (w : W) × (get_cached_validation v (content_key v t i) s.world ≡ (some res, w))
      × (end ≡ record s { world = w })
  IsAwaited (others ∷ schedule) s res end =
      (w : W) × (get_cached_validation v (content_key v t i) s.world ≡ (none, w))
      × (get Text-discrete (content_key v t i) s.in_flight ≡ some tt)
      × IsAwaited schedule (others (record s { world = w })) res end

  -- A validation that finds its key in flight sends no request, however long it waits: it only looks
  -- into the cache between the others' turns, and returns the result that it finds there at last.
  pub validate_content-shares :
      (schedule : List (Flight W → Flight W)) (s end : Flight W) (res : ValidationResult)
      → IsAwaited schedule s res end
      → validate_content v schedule t i s ≡ some (answer v t i res, end)
  unfolding validate_content try_content
  validate_content-shares [] s end res (w, hit, same) = rw (hit, same) refl
  validate_content-shares (others ∷ schedule) s end res (w, miss, taken, rest) =
      rw (miss, taken)
        (validate_content-shares schedule (others (record s { world = w })) end res rest)
