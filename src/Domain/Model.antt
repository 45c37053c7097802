-- ===== src/Domain/Model.antt =====
-- social_api/src/domain/like/model.rs and social_api/src/domain/user/model.rs.
-- A `Uuid` is its 128-bit number and a `DateTime<Utc>` its number of nanoseconds.
use be_in_crypto_social_api.Prelude.{
  ℕ, ℕ_discrete, ◌/◌, ◌*◌, Text, Text-discrete, codes, Option, none, some, holds, if◌then◌else◌,
}

abbrev pub Uuid : Type 0
Uuid = ℕ

abbrev pub DateTime : Type 0
DateTime = ℕ

-- A `timestamptz` of Postgres has whole microseconds.
unfoldable pub to_timestamptz : DateTime → DateTime
to_timestamptz t = t / 1000 * 1000

pub record ContentId : Type 0 where
  pub uuid : Uuid

pub record UserId : Type 0 where
  pub uuid : Uuid

-- A newtype over `String`; `as_str`, `to_string` and `From<String>` are the field and the record.
pub record ContentType : Type 0 where
  pub as_str : Text

-- `as_opt`
unfoldable pub as_opt : ContentType → Option Text
as_opt t = if holds (Text-discrete t.as_str (codes "all")) then none else some t.as_str

pub record Like : Type 0 where
  pub id : Uuid
  pub user_id : UserId
  pub content_type : ContentType
  pub content_id : ContentId
  pub created_at : DateTime

unfoldable pub ContentId-discrete : Discrete ContentId
unfolding ℕ_discrete
ContentId-discrete = hlevel ℕ_discrete

unfoldable pub UserId-discrete : Discrete UserId
unfolding ℕ_discrete
UserId-discrete = hlevel ℕ_discrete

unfoldable pub ContentType-discrete : Discrete ContentType
unfolding ℕ_discrete
ContentType-discrete = hlevel ℕ_discrete

-- The key of one content item.
abbrev pub ContentKey : Type 0
ContentKey = ContentType × ContentId

unfoldable pub ContentKey-discrete : Discrete ContentKey
unfolding ℕ_discrete
ContentKey-discrete = hlevel ℕ_discrete
