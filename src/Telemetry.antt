-- ===== src/Telemetry.antt =====
-- crates/muxa-telemetry/src/lib.rs: the slot that plugins attach tracing layers to.
--
-- A layer is a value with the number of its type. Whether a lock is poisoned and whether the reload
-- handle still reaches its subscriber are arguments, as is what `RUST_LOG` lets pass.
pub mod Layers
pub mod Reach
pub mod Targets
mod Tests
use muxa.Prelude.{
  ℕ, zero, suc, Bool, true, false, not, ◌&&◌, ◌||◌, Option, none, some, List, [], ◌∷◌, ◌++◌, eqb,
  any, if◌then◌else◌,
}
use muxa.Prelude.Text.{Text, codes, ◌==◌, is_empty, is_some, strip_prefix, starts_with}

module _ (Layer : Type 0) where
  -- The layers, the types of the layers at the same places, and the targets hidden from them.
  pub record Slot : Type 0 where
    pub layers : List Layer
    pub kinds : List ℕ
    pub excluded : List Text

abbrev pub empty_slot : (Layer : Type 0) → Slot Layer
empty_slot Layer = record { layers = []; kinds = []; excluded = [] }

abbrev pub in_crate_rest : Option Text → Bool
in_crate_rest none = false
in_crate_rest (some rest) = is_empty rest || starts_with rest (codes "::")

unfoldable pub in_crate : Text → Text → Bool
in_crate target krate = in_crate_rest (strip_prefix target krate)

-- `readable`: the lock is not poisoned
unfoldable pub is_excluded : (readable : Bool) → List Text → Text → Bool
unfolding in_crate
is_excluded readable excluded target = readable && any (in_crate target) excluded

-- What a plugin layer sees of an event or a span
unfoldable pub plugin_filter : (level_passes readable : Bool) → List Text → Text → Bool
unfolding is_excluded
plugin_filter level_passes readable excluded target =
    level_passes && not (is_excluded readable excluded target)

abbrev pub first_or : Bool → Option ℕ → Option ℕ
first_or true later = some 0
first_or false none = none
first_or false (some index) = some (suc index)

-- `iter().position(|known| *known == kind)`
unfoldable pub position : ℕ → List ℕ → Option ℕ
position kind [] = none
position kind (known ∷ kinds) = first_or (eqb known kind) (position kind kinds)

-- `get_mut(index)`, and what is there replaced; out of range nothing is.
unfoldable pub replace {ℓ} : {A : Type ℓ} → ℕ → A → List A → List A
replace index a [] = []
replace zero a (x ∷ xs) = a ∷ xs
replace (suc index) a (x ∷ xs) = x ∷ replace index a xs

-- Each target is added once.
unfoldable pub exclude_all : List Text → List Text → List Text
exclude_all [] excluded = excluded
exclude_all (target ∷ targets) excluded =
    let known = any (λ t. t == target) excluded in
    exclude_all targets (if known then excluded else excluded ++ target ∷ [])

module _ (Layer : Type 0) (type_of : Layer → ℕ) where
  abbrev pub add_at : (reaches : Bool) → Layer → Slot Layer → Option ℕ → Slot Layer
  add_at false layer slot index = slot
  add_at true layer slot (some index) = record slot { layers = replace index layer slot.layers }
  add_at true layer slot none = record slot {
    layers = slot.layers ++ layer ∷ [];
    kinds = slot.kinds ++ type_of layer ∷ [];
  }

  unfoldable pub add_layer :
      (locks reaches : Bool) → Layer → Option (Slot Layer) → Option (Slot Layer)
  unfolding position replace
  add_layer locks reaches layer none = none
  add_layer locks reaches layer (some slot) =
      let added = add_at reaches layer slot (position (type_of layer) slot.kinds) in
      some (if locks then added else slot)

  unfoldable pub exclude_targets :
      (locks : Bool) → List Text → Option (Slot Layer) → Option (Slot Layer)
  unfolding exclude_all
  exclude_targets locks targets none = none
  exclude_targets locks targets (some slot) =
      some (if locks then record slot { excluded = exclude_all targets slot.excluded } else slot)

  -- `install_subscriber`, where no other subscriber is installed or one is
  abbrev pub install_subscriber : (first : Bool) → Option (Slot Layer)
  install_subscriber true = some (empty_slot Layer)
  install_subscriber false = none

  -- `install`: what the process has decided stays, and is decided once.
  abbrev pub install : (first : Bool) → Option (Option (Slot Layer)) → Option (Slot Layer)
  install first (some decided) = decided
  install first none = install_subscriber first

  abbrev pub external : Option (Slot Layer)
  external = none

  abbrev pub is_installed : Option (Slot Layer) → Bool
  is_installed slot = is_some slot
