-- ===== src/Telemetry/Layers.antt =====
-- crates/muxa-telemetry/src/lib.rs: one layer per type, and types in step with layers.
use muxa.Prelude.{
  ℕ, zero, suc, ◌≡◌, ◌≢◌, refl, sym, ap, ◌∙◌, ◌⊎◌, inl, inr, Bool, true, false, Option, none, some,
  List, [], ◌∷◌, ◌++◌, map, eqb, arith, All, if◌then◌else◌,
}
use mathlib.Core.List.{map-append}
use muxa.Telemetry.{Slot, first_or, position, replace, add_at}

-- No type stands twice.
abbrev pub NoRepeats : List ℕ → Type 0
NoRepeats [] = Unit
NoRepeats (kind ∷ kinds) = All (λ k. k ≢ kind) kinds × NoRepeats kinds

All-append : (P : ℕ → Type 0) (xs : List ℕ) (y : ℕ) → All P xs → P y → All P (xs ++ y ∷ [])
All-append P [] y h hy = (hy, tt)
All-append P (x ∷ xs) y (h, hs) hy = (h, All-append P xs y hs hy)

true_of_zero : (same : Bool) (o : Option ℕ) → first_or same o ≡ some zero → same ≡ true
true_of_zero true o h = refl
true_of_zero false none h = absurd (ground arith)
true_of_zero false (some i) h = absurd (ground arith)

later_of_suc :
    (same : Bool) (o : Option ℕ) (i : ℕ)
    → first_or same o ≡ some (suc i)
    → (same ≡ false) × (o ≡ some i)
later_of_suc true o i h = absurd (ground arith)
later_of_suc false none i h = absurd (ground arith)
later_of_suc false (some j) i h = (refl, ground (arith, h))

later_of_none : (same : Bool) (o : Option ℕ) → first_or same o ≡ none → (same ≡ false) × (o ≡ none)
later_of_none true o h = absurd (ground arith)
later_of_none false none h = (refl, refl)
later_of_none false (some j) h = absurd (ground arith)

absent_of_position :
    (kind : ℕ) (kinds : List ℕ) → position kind kinds ≡ none → All (λ k. k ≢ kind) kinds
unfolding position
absent_of_position kind [] h = tt
absent_of_position kind (known ∷ kinds) h =
    let (other, later) = later_of_none (eqb known kind) (position kind kinds) h in
    (ground arith, absent_of_position kind kinds later)

NoRepeats-append :
    (kinds : List ℕ) (kind : ℕ)
    → NoRepeats kinds
    → All (λ k. k ≢ kind) kinds
    → NoRepeats (kinds ++ kind ∷ [])
NoRepeats-append [] kind h new = (tt, tt)
NoRepeats-append (k ∷ kinds) kind (h, hs) (new, news) =
    (All-append (λ x. x ≢ k) kinds kind h (λ e. new (sym e)), NoRepeats-append kinds kind hs news)

module _ (Layer : Type 0) (type_of : Layer → ℕ) where
  -- Replacing a layer by one of its type leaves the types as they are.
  map-replace :
      (layer : Layer) (layers : List Layer) (index : ℕ)
      → position (type_of layer) (map type_of layers) ≡ some index
      → map type_of (replace index layer layers) ≡ map type_of layers
  unfolding position replace
  map-replace layer [] index h = refl
  map-replace layer (l ∷ layers) zero h =
      let same =
        true_of_zero (eqb (type_of l) (type_of layer))
          (position (type_of layer) (map type_of layers)) h in
      ap (λ k. k ∷ map type_of layers) (ground (arith, same))
  map-replace layer (l ∷ layers) (suc index) h =
      let (other, later) =
        later_of_suc (eqb (type_of l) (type_of layer))
          (position (type_of layer) (map type_of layers)) index h in
      ap (λ ks. type_of l ∷ ks) (map-replace layer layers index later)

  -- The layer of a type.
  unfoldable pub layer_of : ℕ → List Layer → Option Layer
  layer_of kind [] = none
  layer_of kind (layer ∷ layers) =
      let later = layer_of kind layers in if eqb (type_of layer) kind then some layer else later

  -- Two tests that cannot both hold may be asked in either order.
  swapped :
      (a b c : ℕ) (x y z : Option Layer)
      → b ≢ a
      → (if eqb a c then x else (if eqb b c then y else z))
        ≡ (if eqb b c then y else (if eqb a c then x else z))
  swapped a b c x y z h = ground arith

  shadowed :
      (a b c : ℕ) (x y z : Option Layer)
      → b ≡ a
      → (if eqb a c then x else z) ≡ (if eqb a c then x else (if eqb b c then y else z))
  shadowed a b c x y z h = ground arith

  layer_of-replace :
      (layer : Layer) (layers : List Layer) (index kind : ℕ)
      → position (type_of layer) (map type_of layers) ≡ some index
      → layer_of kind (replace index layer layers)
        ≡ (if eqb (type_of layer) kind then some layer else layer_of kind layers)
  unfolding layer_of position replace
  layer_of-replace layer [] index kind h = absurd (ground arith)
  layer_of-replace layer (l ∷ layers) zero kind h =
      let same =
        true_of_zero (eqb (type_of l) (type_of layer))
          (position (type_of layer) (map type_of layers)) h in
      shadowed (type_of layer) (type_of l) kind (some layer) (some l) (layer_of kind layers)
        (ground (arith, same))
  layer_of-replace layer (l ∷ layers) (suc index) kind h =
      let (other, later) =
        later_of_suc (eqb (type_of l) (type_of layer))
          (position (type_of layer) (map type_of layers)) index h in
      ap (λ o. if eqb (type_of l) kind then some l else o)
        (layer_of-replace layer layers index kind later)
      ∙ swapped (type_of l) (type_of layer) kind (some l) (some layer) (layer_of kind layers)
          (ground (arith, other))

  layer_of-append :
      (layer : Layer) (layers : List Layer) (kind : ℕ)
      → position (type_of layer) (map type_of layers) ≡ none
      → layer_of kind (layers ++ layer ∷ [])
        ≡ (if eqb (type_of layer) kind then some layer else layer_of kind layers)
  unfolding layer_of position
  layer_of-append layer [] kind h = refl
  layer_of-append layer (l ∷ layers) kind h =
      let (other, later) =
        later_of_none (eqb (type_of l) (type_of layer))
          (position (type_of layer) (map type_of layers)) h in
      ap (λ o. if eqb (type_of l) kind then some l else o) (layer_of-append layer layers kind later)
      ∙ swapped (type_of l) (type_of layer) kind (some l) (some layer) (layer_of kind layers)
          (ground (arith, other))

  -- The types stand in step with the layers, and none stands twice.
  abbrev pub InStep : Slot Layer → Type 0
  InStep slot = (slot.kinds ≡ map type_of slot.layers) × NoRepeats slot.kinds

  -- What attaching a layer does to the slot: nothing, or the layer of its type is now this one, and
  -- the layers of other types are as they were.
  abbrev pub Attached : Layer → Slot Layer → Slot Layer → Type 0
  Attached layer slot slot' =
      (slot' ≡ slot)
      ⊎ ((kind : ℕ)
          → layer_of kind slot'.layers
            ≡ (if eqb (type_of layer) kind then some layer else layer_of kind slot.layers))

  pub layer_of-add_at :
      (layer : Layer) (slot : Slot Layer) (index : Option ℕ) (kind : ℕ)
      → InStep slot
      → position (type_of layer) slot.kinds ≡ index
      → layer_of kind (add_at Layer type_of true layer slot index).layers
        ≡ (if eqb (type_of layer) kind then some layer else layer_of kind slot.layers)
  layer_of-add_at layer slot none kind (step, once) h =
      layer_of-append layer slot.layers kind (sym (ap (position (type_of layer)) step) ∙ h)
  layer_of-add_at layer slot (some index) kind (step, once) h =
      layer_of-replace layer slot.layers index kind (sym (ap (position (type_of layer)) step) ∙ h)

  pub add_at-InStep :
      (reaches : Bool) (layer : Layer) (slot : Slot Layer) (index : Option ℕ)
      → InStep slot
      → position (type_of layer) slot.kinds ≡ index
      → InStep (add_at Layer type_of reaches layer slot index)
        × Attached layer slot (add_at Layer type_of reaches layer slot index)
  add_at-InStep false layer slot index step h = (step, inl refl)
  add_at-InStep true layer slot none (step, once) h = (
    (
      ap (λ ks. ks ++ type_of layer ∷ []) step ∙ sym (map-append type_of slot.layers (layer ∷ [])),
      NoRepeats-append slot.kinds (type_of layer) once
          (absent_of_position (type_of layer) slot.kinds h),
    ),
    inr (λ kind. layer_of-add_at layer slot none kind (step, once) h),
  )
  add_at-InStep true layer slot (some index) (step, once) h =
      let there = sym (ap (position (type_of layer)) step) ∙ h in
      (
        (step ∙ sym (map-replace layer slot.layers index there), once),
        inr (λ kind. layer_of-add_at layer slot (some index) kind (step, once) h),
      )
