-- ===== src/Auth/Csrf.antt =====
-- crates/muxa-auth/src/csrf.rs: the cross-origin check of state-changing requests.
--
-- Parameters: the `Url` of the crate `url` with the operations that are called, and
-- `HeaderValue::to_str`. A header map is what its `get` returns; a value is its bytes.
pub mod Rule
mod Tests
use muxa.Prelude.{
  ℕ, Bool, true, false, ◌||◌, Option, none, some, List, [], ◌∷◌, ◌++◌, any, keep_some,
  if◌then◌else◌,
}
use muxa.Prelude.Text.{Text, codes, ◌==◌, decimal, eq_ignore_ascii_case}

pub data Method : Type 0 where
  get head options : Method
  other : Text → Method

pub record Urls : Type 1 where
  pub Url : Type 0
  pub parse : Text → Option Url
  -- `origin().ascii_serialization()`, for an origin that is a tuple
  pub tuple_origin : Url → Option Text
  pub host_str : Url → Option Text
  pub port : Url → Option ℕ
  pub to_str : Text → Option Text

pub record Headers : Type 0 where
  pub origin : Option Text
  pub sec_fetch_site : Option Text
  pub host : Option Text

pub data Response : Type 0 where
  forbidden : Response
  from_next : Response

infixl 5 ◌>>=◌
abbrev pub ◌>>=◌ : {A B : Type 0} → Option A → (A → Option B) → Option B
none >>= f = none
some a >>= f = f a

module _ (u : Urls) where
  unfoldable pub normalize : Text → Option Text
  normalize origin = do url ← u.parse origin; u.tuple_origin url

  -- The trusted origins, in serialized form. Only membership is asked of the set.
  abbrev pub TrustedOrigins : Type 0
  TrustedOrigins = List Text

  pub new : List Text → TrustedOrigins
  new origins = keep_some normalize origins

  abbrev pub member : TrustedOrigins → Option Text → Bool
  member trusted none = false
  member trusted (some origin) = any (λ t. t == origin) trusted

  unfoldable pub contains : TrustedOrigins → Text → Bool
  contains trusted origin = member trusted (normalize origin)

  -- The host and port of an origin, as they stand in `Host`.
  unfoldable pub origin_host : u.Url → Option Text
  origin_host url = elim (u.host_str url) [
    | none ↦ none
    | some name ↦ elim (u.port url) [
      | none ↦ some name
      | some port ↦ some (name ++ b':' ∷ decimal port)
    ]
  ]

  unfoldable pub same_host : Text → Option Text → Bool
  unfolding origin_host
  same_host origin host = elim (u.parse origin) [
    | none ↦ false
    | some url ↦ elim host [
      | none ↦ false
      | some host ↦ elim (origin_host url) [
        | none ↦ false
        | some name ↦ eq_ignore_ascii_case name host
      ]
    ]
  ]

  abbrev pub is_safe : Method → Bool
  is_safe get = true
  is_safe head = true
  is_safe options = true
  is_safe (other name) = false

  abbrev pub trusted_origin : TrustedOrigins → Option Text → Bool
  trusted_origin trusted none = false
  trusted_origin trusted (some origin) = contains trusted origin

  unfoldable pub allowed : Method → Headers → TrustedOrigins → Bool
  unfolding same_host contains
  allowed method headers trusted =
      let origin = headers.origin >>= u.to_str in
      if is_safe method then true else elim headers.sec_fetch_site [
        | some site ↦
            if site == codes "same-origin" || site == codes "none"
            then true
            else trusted_origin trusted origin
        | none ↦ elim origin [
          | none ↦ true
          | some origin ↦
              if contains trusted origin then true else same_host origin (headers.host >>= u.to_str)
        ]
      ]

  unfoldable pub guard : Method → Headers → TrustedOrigins → Response
  unfolding allowed
  guard method headers trusted = if allowed method headers trusted then from_next else forbidden
