-- ===== src/Telemetry/Tests.antt =====
-- Layers of two types, and the unit tests of crates/muxa-telemetry/src/lib.rs.
use muxa.Prelude.{ℕ, ◌≡◌, refl, true, false, some, none, List, [], ◌∷◌}
use muxa.Prelude.Text.{Text, codes, str_ops}
use muxa.Telemetry.{
  Slot, in_crate, is_excluded, plugin_filter, position, replace, add_layer, exclude_all,
  exclude_targets, install,
}
use muxa.Telemetry.Layers.{layer_of}
use muxa.Telemetry.Reach.{Call, adds, excludes, calls, IsSound, calls-IsSound}

registry : Unit {0}
unfolding in_crate is_excluded plugin_filter position replace add_layer exclude_all exclude_targets
    layer_of str_ops
registry = tt

-- A layer is the number of its type and a name.
abbrev Named : Type 0
Named = ℕ × Text

abbrev type_of : Named → ℕ
type_of layer = layer.0

abbrev sentry : Named
sentry = (1, codes "sentry")

abbrev other_sentry : Named
other_sentry = (1, codes "sentry of a second app")

abbrev otel : Named
otel = (2, codes "otel")

abbrev both_calls : List (Call Named type_of)
both_calls =
    adds true true sentry
    ∷ adds true true otel
    ∷ excludes true (codes "tower" ∷ [])
    ∷ adds true true other_sentry
    ∷ []

abbrev both : Slot Named
both = record {
  layers = other_sentry ∷ otel ∷ [];
  kinds = 1 ∷ 2 ∷ [];
  excluded = codes "tower" ∷ [];
}

replaces_same_type : calls Named type_of both_calls (install Named type_of true none) ≡ some both
unfolding registry
replaces_same_type = refl

modules_of_crate :
    (in_crate (codes "hyper::client") (codes "hyper") ≡ true)
    × (in_crate (codes "hyper_util") (codes "hyper") ≡ false)
    × (in_crate (codes "tower_http") (codes "tower") ≡ false)
unfolding registry
modules_of_crate = (refl, refl, refl)

calls-IsSound_example : IsSound Named type_of (some both)
unfolding registry
calls-IsSound_example = calls-IsSound Named type_of true both_calls
