-- ===== src/Domain/Uuids.antt =====
-- The text of a UUID, of 36 characters, at the end of a key.
use be_in_crypto_social_api.Prelude.{Text, codes, ◌≡◌, ◌++◌, length, append-cancel, arith}
use be_in_crypto_social_api.Domain.Model.{Uuid, ContentId, ContentType}

-- What the keys rely on of `Display for Uuid`.
pub record UuidText (uuid_text : Uuid → Text) : Type 0 where
  pub length_lem : (u : Uuid) → length (uuid_text u) ≡ 36
  pub injective : (u u' : Uuid) → uuid_text u ≡ uuid_text u' → u ≡ u'

-- A key that ends in a content type, a colon and a content id tells both.
pub keyed-injective :
    (uuid_text : Uuid → Text) (t t' : ContentType) (i i' : ContentId)
    → UuidText uuid_text
    → (t.as_str ++ (codes ":" ++ uuid_text i.uuid))
      ≡ (t'.as_str ++ (codes ":" ++ uuid_text i'.uuid))
    → (t ≡ t') × (i ≡ i')
keyed-injective uuid_text t t' i i' laws h =
    let parts =
      append-cancel t.as_str t'.as_str (codes ":" ++ uuid_text i.uuid)
        (codes ":" ++ uuid_text i'.uuid)
        (omega (arith, laws.length_lem i.uuid, laws.length_lem i'.uuid)) h in
    let same_uuid : i.uuid ≡ i'.uuid = laws.injective i.uuid i'.uuid (cc parts.1) in
    (λ k. record { as_str = parts.0 k }, λ k. record { uuid = same_uuid k })
