-- ===== src/Infrastructure/Config/ContentApis.antt =====
-- Which content types the environment configures, and which environment stops the program.
use be_in_crypto_social_api.Prelude.{
  ℕ, ◌≡◌, ◌≢◌, refl, ap, ◌∙◌, Text, Text-discrete, codes, List, [], ◌∷◌, ◌++◌, All, length,
  length-append, Option, none, some, Bool-cases, Option-cases, true, get, insert, get-insert_self,
  get-insert_ne, ℤ, inl, inr, arith,
}
use be_in_crypto_social_api.Api.Middleware.{strip_prefix}
use be_in_crypto_social_api.Infrastructure.Config.{
  Vars, Config, strip_suffix, prefix, suffix, names_content_api, content_type_of, read_content_apis,
  from_env,
}

strip_prefix-append_self : (p r : Text) → strip_prefix p (p ++ r) ≡ some r
unfolding strip_prefix
strip_prefix-append_self [] r = refl
strip_prefix-append_self (c ∷ cs) r = ground (arith, strip_prefix-append_self cs r)

strip_suffix_self : (s : Text) → strip_suffix s s ≡ some []
unfolding strip_suffix
strip_suffix_self [] = ground arith
strip_suffix_self (c ∷ cs) = ground arith

longer : (c : ℕ) (cs s : Text) → (c ∷ (cs ++ s)) ≢ s
longer c cs s e = absurd (omega (arith, ap length e, length-append cs s))

strip_suffix-append : (name s : Text) → strip_suffix s (name ++ s) ≡ some name
unfolding strip_suffix
strip_suffix-append [] s = strip_suffix_self s
strip_suffix-append (c ∷ cs) s = ground (arith, longer c cs s, strip_suffix-append cs s)

module _ (to_lowercase : Text → Text) where
  -- the prefix and the suffix overlap
  overlap :
      (names_content_api to_lowercase (codes "CONTENT_API_URL") ≡ true)
      × (content_type_of to_lowercase (codes "CONTENT_API_URL") ≡ none)
  unfolding names_content_api content_type_of strip_prefix strip_suffix Text-discrete
  overlap = (refl, refl)

  read_content_apis-unwrap :
      (key value : Text) (vars : Vars) (apis : List (Text × Text))
      → names_content_api to_lowercase key ≡ true
      → content_type_of to_lowercase key ≡ none
      → read_content_apis to_lowercase ((key, value) ∷ vars) apis ≡ none
  unfolding read_content_apis
  read_content_apis-unwrap key value vars apis named overlaps = ground (arith, named, overlaps)

  read_content_apis-panics :
      (before after : Vars) (value : Text) (apis : List (Text × Text))
      → read_content_apis to_lowercase (before ++ ((codes "CONTENT_API_URL", value) ∷ after)) apis
        ≡ none
  unfolding read_content_apis
  read_content_apis-panics [] after value apis =
      read_content_apis-unwrap (codes "CONTENT_API_URL") value after apis overlap.0 overlap.1
  read_content_apis-panics ((key, v) ∷ before) after value apis =
      elim (Bool-cases (names_content_api to_lowercase key)) [
        | inr other ↦ ground (arith, other, read_content_apis-panics before after value apis)
        | inl named ↦ elim (Option-cases (content_type_of to_lowercase key)) [
          | inl overlaps ↦ read_content_apis-unwrap key v _ apis named overlaps
          | inr (name, e) ↦ ground (
            arith,
            named,
            e,
            read_content_apis-panics before after value (insert Text-discrete name v apis),
          )
        ]
      ]

  abbrev variable_of : Text → Text
  variable_of name = prefix ++ (name ++ suffix)

  variable_of-read :
      (name : Text)
      → (names_content_api to_lowercase (variable_of name) ≡ true)
        × (content_type_of to_lowercase (variable_of name) ≡ some (to_lowercase name))
  unfolding names_content_api content_type_of
  variable_of-read name =
      let rest = strip_prefix-append_self prefix (name ++ suffix) in
      let whole = strip_suffix-append (prefix ++ name) suffix in
      let stripped = strip_suffix-append name suffix in
      (ground (arith, rest, whole), ground (arith, rest, stripped))

  read_content_apis-get :
      (after : Vars) (t value : Text) (apis result : List (Text × Text))
      → get Text-discrete t apis ≡ some value
      → All (λ var. content_type_of to_lowercase var.0 ≢ some t) after
      → read_content_apis to_lowercase after apis ≡ some result
      → get Text-discrete t result ≡ some value
  unfolding read_content_apis
  read_content_apis-get [] t value apis result here others read = ground (arith, here, read)
  read_content_apis-get ((key, v) ∷ after) t value apis result here (other, others) read =
      elim (Bool-cases (names_content_api to_lowercase key)) [
        | inr out ↦
            read_content_apis-get after t value apis result here others (ground (arith, out, read))
        | inl named ↦ elim (Option-cases (content_type_of to_lowercase key)) [
          | inl overlaps ↦ absurd (ground (arith, named, overlaps, read))
          | inr (name, e) ↦
              read_content_apis-get after t value (insert Text-discrete name v apis) result
                (get-insert_ne Text-discrete name t v apis
                    (λ same. other (e ∙ ap (λ (x : Text). some x) same))
                  ∙ here)
                others (ground (arith, named, e, read))
        ]
      ]

  -- A variable `CONTENT_API_URL`, which has the prefix and the suffix but not one after the other,
  -- makes the reading of any environment panic.
  pub from_env-panics :
      (parse_u64 parse_u16 : Text → Option ℕ) (parse_i64 : Text → Option ℤ) (before after : Vars)
      (value : Text)
      → from_env parse_u64 parse_u16 parse_i64 to_lowercase
          (before ++ ((codes "CONTENT_API_URL", value) ∷ after))
        ≡ none
  unfolding from_env
  from_env-panics parse_u64 parse_u16 parse_i64 before after value =
      ground (arith, read_content_apis-panics before after value [])

  read_content_apis-last :
      (before after : Vars) (name value : Text) (apis result : List (Text × Text))
      → All (λ var. content_type_of to_lowercase var.0 ≢ some (to_lowercase name)) after
      → read_content_apis to_lowercase (before ++ ((variable_of name, value) ∷ after)) apis
        ≡ some result
      → get Text-discrete (to_lowercase name) result ≡ some value
  unfolding read_content_apis
  read_content_apis-last [] after name value apis result others read =
      let (named, called) = variable_of-read name in
      read_content_apis-get after (to_lowercase name) value
        (insert Text-discrete (to_lowercase name) value apis) result
        (get-insert_self Text-discrete (to_lowercase name) value apis) others
        (ground (arith, named, called, read))
  read_content_apis-last ((key, v) ∷ before) after name value apis result others read =
      elim (Bool-cases (names_content_api to_lowercase key)) [
        | inr out ↦
            read_content_apis-last before after name value apis result others
              (ground (arith, out, read))
        | inl named ↦ elim (Option-cases (content_type_of to_lowercase key)) [
          | inl overlaps ↦ absurd (ground (arith, named, overlaps, read))
          | inr (t, e) ↦
              read_content_apis-last before after name value (insert Text-discrete t v apis) result
                others (ground (arith, named, e, read))
        ]
      ]

  from_env-content_apis :
      (parse_u64 parse_u16 : Text → Option ℕ) (parse_i64 : Text → Option ℤ) (env : Vars)
      (config : Config)
      → from_env parse_u64 parse_u16 parse_i64 to_lowercase env ≡ some config
      → read_content_apis to_lowercase env [] ≡ some config.content_apis
  unfolding from_env
  from_env-content_apis parse_u64 parse_u16 parse_i64 env config read = ground (arith, read)

  -- A variable for a content type, not taken back by a later one, is the type's URL: if the reading
  -- of the environment does not panic, the lower case of the name has the value.
  pub from_env-get :
      (parse_u64 parse_u16 : Text → Option ℕ) (parse_i64 : Text → Option ℤ) (before after : Vars)
      (name value : Text) (config : Config)
      → All (λ var. content_type_of to_lowercase var.0 ≢ some (to_lowercase name)) after
      → from_env parse_u64 parse_u16 parse_i64 to_lowercase
          (before ++ ((variable_of name, value) ∷ after))
        ≡ some config
      → get Text-discrete (to_lowercase name) config.content_apis ≡ some value
  from_env-get parse_u64 parse_u16 parse_i64 before after name value config others read =
      read_content_apis-last before after name value [] config.content_apis others
        (from_env-content_apis parse_u64 parse_u16 parse_i64 _ config read)
