-- ===== src/Infrastructure/Redis/Keys.antt =====
-- The keys of the Redis repository, and their times to live.
use be_in_crypto_social_api.Prelude.{
  ℤ, pos, Text, Text-discrete, codes, [], ◌∷◌, ◌++◌, holds, ◌==◌, if◌then◌else◌,
}
use be_in_crypto_social_api.Domain.Model.{Uuid, ContentId, ContentType}

abbrev sse_events_key : Text
sse_events_key = codes "sse:events"

pub data LeadKeyType : Type 0 where
  data_ canary lock : LeadKeyType

-- `LeadKeyType::as_str`
abbrev pub lead_str : LeadKeyType → Text
lead_str data_ = codes "data"
lead_str canary = codes "canary"
lead_str lock = codes "lock"

-- the two times to live of `Config` that the repository reads
pub record Config : Type 0 where
  pub cache_ttl_like_counts_secs : ℤ
  pub cache_ttl_content_validation_secs : ℤ

-- `key.split(':').next()`
unfoldable pub prefix_of : Text → Text
prefix_of [] = []
prefix_of (c ∷ cs) = let rest = prefix_of cs in if c == b':' then [] else c ∷ rest

unfoldable pub get_ttl_for_key : Config → Text → ℤ
unfolding prefix_of
get_ttl_for_key config key =
    let prefix = prefix_of key in
    if holds (Text-discrete prefix (codes "count"))
    then config.cache_ttl_like_counts_secs
    else if holds (Text-discrete prefix (codes "leaderboard"))
    then config.cache_ttl_like_counts_secs
    else if holds (Text-discrete prefix (codes "validation"))
    then config.cache_ttl_content_validation_secs
    else pos 300

unfoldable pub format_all_channels_key : Text
format_all_channels_key = sse_events_key ++ codes ":*"

unfoldable pub format_lead_key : LeadKeyType → Text → ContentType → Text
format_lead_key k_type window c_type =
    codes "leaderboard:"
    ++ (lead_str k_type ++ (codes ":" ++ (window ++ (codes ":" ++ c_type.as_str))))

module _ (uuid_text : Uuid → Text) where
  unfoldable pub format_count_key : ContentType → ContentId → Text
  format_count_key c_type c_id =
      codes "count:" ++ (c_type.as_str ++ (codes ":" ++ uuid_text c_id.uuid))

  unfoldable pub format_channel_key : ContentType → ContentId → Text
  format_channel_key c_type c_id =
      sse_events_key ++ (codes ":" ++ (c_type.as_str ++ (codes ":" ++ uuid_text c_id.uuid)))
