-- ===== src/Core/Config.antt =====
-- crates/muxa-core/src/config.rs: the names of environment variables, and a plugin's section with
-- its fallbacks from the environment. figment is a parameter; the environment is a function.
pub mod Names
pub mod Fallbacks
mod Tests
use muxa.Prelude.{
  ℕ, ◌+◌, ◌-◌, Bool, true, false, ◌||◌, Option, none, some, List, [], ◌∷◌, ◌++◌, map, keep_some,
  if◌then◌else◌,
}
use muxa.Prelude.Text.{Text, codes, ◌==◌, is_empty, is_upper, is_lower, is_digit}
use muxa.Prelude.Effects.{Result, ok, err}

abbrev pub is_ascii_alphanumeric : ℕ → Bool
is_ascii_alphanumeric c = is_upper c || is_lower c || is_digit c

abbrev pub to_ascii_uppercase : ℕ → ℕ
to_ascii_uppercase c = if is_lower c then c - 32 else c

abbrev pub env_char : ℕ → ℕ
env_char ch = if is_ascii_alphanumeric ch then to_ascii_uppercase ch else b'_'

unfoldable pub env_prefix : Text → Text
env_prefix app_name = map env_char app_name ++ b'_' ∷ []

pub record EnvFallback : Type 0 where
  pub var : Text
  pub key : Text

pub record FallbackValue : Type 0 where
  pub var : Text
  pub section : Text
  pub key : Text
  pub raw : Text

abbrev pub Env : Type 0
Env = Text → Option Text

abbrev pub value_of : Text → EnvFallback → Option Text → Option FallbackValue
value_of section fallback none = none
value_of section fallback (some raw) =
    if is_empty raw
    then none
    else some (record { var = fallback.var; section = section; key = fallback.key; raw = raw })

-- `FallbackValue::read`
abbrev pub read : Env → Text → EnvFallback → Option FallbackValue
read env section fallback = value_of section fallback (env fallback.var)

-- A figment, values, `FromStr` for them, and `join` with one value at a section and key.
pub record Figments : Type 1 where
  pub Figment : Type 0
  pub Value : Type 0
  pub parse : Text → Value
  pub join : Figment → Text × Text × Value → Figment
  pub has_section : Figment → Text → Bool

module _ (f : Figments) where
  open f use {Figment, Value}

  -- `FallbackValue::data`
  abbrev pub data_of : FallbackValue → Text × Text × Value
  data_of v = (v.section, v.key, f.parse v.raw)

  unfoldable pub join_all : Figment → List FallbackValue → Figment
  join_all figment [] = figment
  join_all figment (v ∷ set) = join_all (f.join figment (data_of v)) set

  -- What a section is read from.
  unfoldable pub with_fallbacks : Env → Figment → Text → List EnvFallback → Figment
  unfolding join_all
  with_fallbacks env figment prefix fallbacks =
      join_all figment (keep_some (read env prefix) fallbacks)

  module _ {T E : Type 0} (extract_inner : Figment → Text → Result E T) (default : T) where
    unfoldable pub extract_section : Figment → Text → Result E T
    extract_section figment prefix =
        if f.has_section figment prefix then extract_inner figment prefix else ok default

    abbrev pub extract_set :
        Env → Figment → Text → List EnvFallback → List FallbackValue → Result E T
    extract_set env figment prefix fallbacks [] = extract_section figment prefix
    extract_set env figment prefix fallbacks (v ∷ set) =
        extract_section (with_fallbacks env figment prefix fallbacks) prefix

    -- `Sections::get_or_env`
    unfoldable pub get_or_env : Env → Figment → Text → List EnvFallback → Result E T
    unfolding extract_section with_fallbacks
    get_or_env env figment prefix fallbacks =
        if is_empty prefix
        then ok default
        else extract_set env figment prefix fallbacks (keep_some (read env prefix) fallbacks)
