-- ===== src/Application/LikeService/Listing/Pages.antt =====
-- The pages of `get_user_liked_items`, and their cursors.
use be_in_crypto_social_api.Prelude.{
  ℕ, suc, ◌≤◌, ◌<◌, ◌≡◌, ◌≢◌, refl, sym, ap, List, [], ◌∷◌, map, length, get_elem?, get_elem?-some,
  take, take_all, none, some, ltb, arith, Bool-cases, inl, inr,
}
use be_in_crypto_social_api.Prelude.Exec.{ok, err}
use be_in_crypto_social_api.Domain.Errors.{panicked}
use be_in_crypto_social_api.Domain.Model.{Like}
use be_in_crypto_social_api.Api.Dto.{
  UserLikesResponse, PaginationCursor, CursorCodec, decode_opt, encode_cursor, liked_item,
}
use be_in_crypto_social_api.Application.LikeService.Service.{LikeService}
use be_in_crypto_social_api.Application.LikeService.Listing.{cursor_at, page_of}

-- What the cursor relies on of the codecs: what was written can be read again.
pub record CodecLaws (codec : CursorCodec) : Type 0 where
  pub base64_lem : (bytes : List ℕ) → codec.base64_decode (codec.base64_encode bytes) ≡ some bytes
  pub json_lem : (c : PaginationCursor) → codec.from_json (codec.to_json c) ≡ some c

module _ (codec : CursorCodec) where
  -- A cursor that the service has written is decoded to itself.
  pub decode_opt-encode_cursor :
      (c : PaginationCursor)
      → CodecLaws codec
      → decode_opt codec (some (encode_cursor codec c)) ≡ ok (some c)
  unfolding decode_opt encode_cursor
  decode_opt-encode_cursor c laws =
      ground (arith, laws.base64_lem (codec.to_json c), laws.json_lem c)

  module _ {W : Type 0} (svc : LikeService W) where
    -- A page of a limit above 0 holds the first rows up to the limit, in their order. If there are
    -- more rows than the limit, its cursor is that of the last row shown; else it has none.
    pub page_of_lem :
        (items : List Like) (n : ℕ)
        → let limit = suc n in
          (r : UserLikesResponse) × (page_of codec svc items limit ≡ ok r)
          × (r.items ≡ map (liked_item svc.uuid_text) (take limit items))
          × (limit < length items
              → (l : Like) × (get_elem? items n ≡ some l)
                × (r.next_cursor
                    ≡ some (encode_cursor codec (record { t = l.created_at; id = l.id }))))
          × (length items ≤ limit → r.next_cursor ≡ none)
    unfolding page_of cursor_at
    page_of_lem items n = elim (Bool-cases (ltb (suc n) (length items))) [
      | inl more ↦
          let (l, found) = get_elem?-some items n (ground (arith, more)) in
          (
            record {
              items = map (liked_item svc.uuid_text) (take (suc n) items);
              next_cursor = some (encode_cursor codec (record { t = l.created_at; id = l.id }));
            },
            rw (more, found) refl,
            refl,
            λ _. (l, found, refl),
            λ few. absurd (ground (arith, more, few)),
          )
      | inr last ↦ (
        record { items = map (liked_item svc.uuid_text) items; next_cursor = none },
        rw last refl,
        ap (map (liked_item svc.uuid_text)) (sym (take_all (suc n) items (ground (arith, last)))),
        λ many. absurd (ground (arith, last, many)),
        λ _. refl,
      )
    ]

    -- With a limit of 0 the method panics as soon as the user has one like that is listed.
    pub page_of-zero : (items : List Like) → items ≢ [] → page_of codec svc items 0 ≡ err panicked
    unfolding page_of cursor_at
    page_of-zero [] h = absurd (h refl)
    page_of-zero (l ∷ items) h = ground arith
