-- ===== src/Telemetry/Reach.antt =====
-- crates/muxa-telemetry/src/lib.rs: the slot after any sequence of calls.
use muxa.Prelude.{ℕ, ◌≡◌, refl, inl, Bool, true, false, Option, none, some, List, [], ◌∷◌}
use muxa.Prelude.Text.{Text}
use muxa.Telemetry.{Slot, position, add_at, add_layer, exclude_targets, install}
use muxa.Telemetry.Layers.{InStep, Attached, add_at-InStep}

module _ (Layer : Type 0) (type_of : Layer → ℕ) where
  -- What plugins do with a registry, and what of its locks.
  pub data Call : Type 0 where
    adds : (locks reaches : Bool) → Layer → Call
    excludes : (locks : Bool) → List Text → Call

  abbrev pub call : Call → Option (Slot Layer) → Option (Slot Layer)
  call (adds locks reaches layer) slot = add_layer Layer type_of locks reaches layer slot
  call (excludes locks targets) slot = exclude_targets Layer type_of locks targets slot

  abbrev pub calls : List Call → Option (Slot Layer) → Option (Slot Layer)
  calls [] slot = slot
  calls (c ∷ cs) slot = calls cs (call c slot)

  -- A registry without a slot, or with one whose types are in step.
  abbrev pub IsSound : Option (Slot Layer) → Type 0
  IsSound none = Unit
  IsSound (some slot) = InStep Layer type_of slot

  add_layer-IsSound :
      (locks reaches : Bool) (layer : Layer) (slot : Option (Slot Layer))
      → IsSound slot
      → IsSound (add_layer Layer type_of locks reaches layer slot)
  unfolding add_layer
  add_layer-IsSound locks reaches layer none h = tt
  add_layer-IsSound false reaches layer (some slot) h = h
  add_layer-IsSound true reaches layer (some slot) h =
      (add_at-InStep Layer type_of reaches layer slot (position (type_of layer) slot.kinds) h
        refl).0

  exclude_targets-IsSound :
      (locks : Bool) (targets : List Text) (slot : Option (Slot Layer))
      → IsSound slot
      → IsSound (exclude_targets Layer type_of locks targets slot)
  unfolding exclude_targets
  exclude_targets-IsSound locks targets none h = tt
  exclude_targets-IsSound false targets (some slot) h = h
  exclude_targets-IsSound true targets (some slot) h = h

  -- After any calls on the registry that `install` gives in a new process, whichever locks were
  -- poisoned and whichever modifications did not reach the subscriber, the types kept are those of
  -- the layers attached, in the same places, and no type stands twice: each place that a type is
  -- looked up at holds the layer of that type.
  pub calls-IsSound :
      (first : Bool) (cs : List Call) → IsSound (calls cs (install Layer type_of first none))
  calls-IsSound first cs = go cs (install Layer type_of first none) (installed first)
    where
      installed : (first : Bool) → IsSound (install Layer type_of first none)
      installed true = (refl, tt)
      installed false = tt

      one : (c : Call) (slot : Option (Slot Layer)) → IsSound slot → IsSound (call c slot)
      one (adds locks reaches layer) slot h = add_layer-IsSound locks reaches layer slot h
      one (excludes locks targets) slot h = exclude_targets-IsSound locks targets slot h

      go : (cs : List Call) (slot : Option (Slot Layer)) → IsSound slot → IsSound (calls cs slot)
      go [] slot h = h
      go (c ∷ cs) slot h = go cs (call c slot) (one c slot h)

  -- Attaching a layer to a slot whose types are in step: where the lock is poisoned or the
  -- modification does not reach, the slot stays; else the layer of that type is this one, whether there was
  -- one before or not, and the layers of all other types stay.
  add_layer-Attached :
      (locks reaches : Bool) (layer : Layer) (slot : Slot Layer)
      → InStep Layer type_of slot
      → (slot' : Slot Layer) × (add_layer Layer type_of locks reaches layer (some slot)
          ≡ some slot')
        × Attached Layer type_of layer slot slot'
  unfolding add_layer
  add_layer-Attached false reaches layer slot h = (slot, refl, inl refl)
  add_layer-Attached true reaches layer slot h = (
    add_at Layer type_of reaches layer slot (position (type_of layer) slot.kinds),
    refl,
    (add_at-InStep Layer type_of reaches layer slot (position (type_of layer) slot.kinds) h refl).1,
  )
