-- ===== src/Prelude/Assoc.antt =====
-- `HashMap<String, V>` and `BTreeMap<String, V>` as association lists without repeated keys. The
-- order of the entries stands for the order of iteration, which a `HashMap` leaves open.
use muxa.Prelude.Tests.{if◌then◌else◌, Bool-cases}
use muxa.Prelude.Lists.{length}
use muxa.Prelude.Text.{Text, ◌==◌}
use muxa.Prelude.Text.Laws.{==_iff, ==_refl}
use Prim.Native.Nat.{◌≤◌, ◌<◌}
use mathlib.Core.Path.{◌≡◌, refl}
use mathlib.Core.Logic.{inl, inr}
use mathlib.Core.Bool.{Bool}
use mathlib.Core.Option.{Option, none, some}
use mathlib.Core.List.{List, [], ◌∷◌}
use native.Mathlib.Omega.{arith}

abbrev pub Assoc {ℓ} : Type ℓ → Type ℓ
Assoc V = List (Text × V)

-- `Option::filter`
abbrev pub keep_if {ℓ} : {A : Type ℓ} → (A → Bool) → Option A → Option A
keep_if p none = none
keep_if p (some a) = if p a then some a else none

module _ {ℓ} {V : Type ℓ} where
  unfoldable pub lookup : Text → Assoc V → Option V
  lookup k [] = none
  lookup k ((j, v) ∷ m) = if j == k then some v else lookup k m

  unfoldable pub remove : Text → Assoc V → Assoc V
  remove k [] = []
  remove k ((j, v) ∷ m) = let rest = remove k m in if j == k then rest else (j, v) ∷ rest

  unfoldable pub insert : Text → V → Assoc V → Assoc V
  unfolding remove
  insert k v m = (k, v) ∷ remove k m

  -- `retain(|_, v| p(v))`
  unfoldable pub retain_values : (V → Bool) → Assoc V → Assoc V
  retain_values p [] = []
  retain_values p ((k, v) ∷ m) = let rest = retain_values p m in if p v then (k, v) ∷ rest else rest

  abbrev pub keys : Assoc V → List Text
  keys [] = []
  keys ((k, v) ∷ m) = k ∷ keys m

  -- No key stands twice.
  abbrev pub IsMap : Assoc V → Type ℓ
  IsMap [] = Unit
  IsMap ((k, v) ∷ m) = (lookup k m ≡ none) × IsMap m

  pub lookup-remove :
      (j k : Text) (m : Assoc V) → lookup j (remove k m) ≡ (if k == j then none else lookup j m)
  unfolding lookup remove
  lookup-remove j k [] = ground arith
  lookup-remove j k ((i, v) ∷ m) =
      ground (arith, lookup-remove j k m, ==_iff i k, ==_iff i j, ==_iff k j)

  pub lookup-insert :
      (j k : Text) (v : V) (m : Assoc V)
      → lookup j (insert k v m) ≡ (if k == j then some v else lookup j m)
  unfolding lookup insert
  lookup-insert j k v m = ground (arith, lookup-remove j k m)

  pub lookup-insert_self : (k : Text) (v : V) (m : Assoc V) → lookup k (insert k v m) ≡ some v
  lookup-insert_self k v m = ground (arith, lookup-insert k k v m, ==_refl k)

  lookup-retain_absent :
      (j : Text) (p : V → Bool) (m : Assoc V)
      → lookup j m ≡ none
      → lookup j (retain_values p m) ≡ none
  unfolding lookup retain_values
  lookup-retain_absent j p [] h = refl
  lookup-retain_absent j p ((i, v) ∷ m) h = ground (arith, lookup-retain_absent j p m)

  pub lookup-retain :
      (j : Text) (p : V → Bool) (m : Assoc V)
      → IsMap m
      → lookup j (retain_values p m) ≡ keep_if p (lookup j m)
  unfolding lookup retain_values
  lookup-retain j p [] h = refl
  lookup-retain j p ((i, v) ∷ m) (h, hs) =
      ground (arith, lookup-retain j p m hs, lookup-retain_absent i p m h, ==_iff i j)

  pub IsMap-remove : (k : Text) (m : Assoc V) → IsMap m → IsMap (remove k m)
  unfolding remove
  IsMap-remove k [] h = tt
  IsMap-remove k ((i, v) ∷ m) (h, hs) = elim (Bool-cases (i == k)) [
    | inl same ↦ rw same (IsMap-remove k m hs)
    | inr other ↦ rw other (ground (arith, lookup-remove i k m), IsMap-remove k m hs)
  ]

  pub IsMap-insert : (k : Text) (v : V) (m : Assoc V) → IsMap m → IsMap (insert k v m)
  unfolding insert
  IsMap-insert k v m h = (ground (arith, lookup-remove k k m, ==_refl k), IsMap-remove k m h)

  pub IsMap-retain : (p : V → Bool) (m : Assoc V) → IsMap m → IsMap (retain_values p m)
  unfolding retain_values
  IsMap-retain p [] h = tt
  IsMap-retain p ((i, v) ∷ m) (h, hs) = elim (Bool-cases (p v)) [
    | inl kept ↦ rw kept (lookup-retain_absent i p m h, IsMap-retain p m hs)
    | inr dropped ↦ rw dropped (IsMap-retain p m hs)
  ]

  pub length-remove-le : (k : Text) (m : Assoc V) → length (remove k m) ≤ length m
  unfolding remove
  length-remove-le k [] = omega arith
  length-remove-le k ((i, v) ∷ m) = ground (arith, length-remove-le k m)

  pub length-remove-lt :
      (k : Text) (m : Assoc V) (v : V) → lookup k m ≡ some v → length (remove k m) < length m
  unfolding lookup remove
  length-remove-lt k [] v h = cc
  length-remove-lt k ((i, w) ∷ m) v h = ground (arith, length-remove-le k m, length-remove-lt k m v)
