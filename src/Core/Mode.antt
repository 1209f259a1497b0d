-- ===== src/Core/Mode.antt =====
-- crates/muxa-core/src/mode.rs: development or production. figment is a parameter: what
-- `extract_inner::<String>("env")` gives.
pub mod Names
mod Tests
use muxa.Prelude.{Bool, true, false, Option, none, some, if◌then◌else◌, ◌||◌}
use muxa.Prelude.Text.{Text, codes, ◌==◌, trim, to_ascii_lowercase}
use muxa.Prelude.Effects.{Result, ok, err}

pub data RunMode : Type 0 where
  development production : RunMode

-- The error of `FromStr`, with the label that is not known.
pub data ParseRunModeError : Type 0 where
  unknown : Text → ParseRunModeError

unfoldable pub from_label : Text → Result ParseRunModeError RunMode
from_label label =
    if label == codes "development" || label == codes "dev" || label == codes "debug"
    then ok development
    else if label == codes "production" || label == codes "prod" || label == codes "release"
    then ok production
    else err (unknown label)

unfoldable pub from_str : Text → Result ParseRunModeError RunMode
unfolding from_label
from_str raw = from_label (to_ascii_lowercase (trim raw))

abbrev pub as_str : RunMode → Text
as_str development = codes "development"
as_str production = codes "production"

abbrev pub is_production : RunMode → Bool
is_production development = false
is_production production = true

abbrev pub is_development : RunMode → Bool
is_development development = true
is_development production = false

-- `cfg!(debug_assertions)` is an argument.
abbrev pub from_build_profile : Bool → RunMode
from_build_profile debug_assertions = if debug_assertions then development else production

-- `unwrap_or_else(from_build_profile)` over the parsed key
abbrev pub parsed_or_profile : Bool → Result ParseRunModeError RunMode → RunMode
parsed_or_profile debug_assertions (ok mode) = mode
parsed_or_profile debug_assertions (err _) = from_build_profile debug_assertions

unfoldable pub from_figment : Bool → Option Text → RunMode
unfolding from_str
from_figment debug_assertions none = from_build_profile debug_assertions
from_figment debug_assertions (some raw) = parsed_or_profile debug_assertions (from_str raw)
