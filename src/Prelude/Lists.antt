-- ===== src/Prelude/Lists.antt =====
-- Lists measured by native numbers, and tests over lists.
use Prim.Native.Nat.{ℕ, suc, ◌+◌}
use mathlib.Core.Path.{◌≡◌, refl}
use mathlib.Core.Bool.{Bool, true, false, ◌||◌, ◌&&◌}
use mathlib.Core.Option.{Option, none, some}
use mathlib.Core.List.{List, [], ◌∷◌, ◌++◌}
use native.Mathlib.Omega.{arith}
use muxa.Prelude.Tests.{if◌then◌else◌}

module _ {ℓ} {A : Type ℓ} where
  abbrev pub length : List A → ℕ
  length [] = 0
  length (x ∷ xs) = suc (length xs)

  pub length-append : (xs ys : List A) → length (xs ++ ys) ≡ length xs + length ys
  length-append [] ys = omega arith
  length-append (x ∷ xs) ys = omega (arith, length-append xs ys)

  -- `iter().any(p)` and `iter().all(p)`
  abbrev pub any : (A → Bool) → List A → Bool
  any p [] = false
  any p (x ∷ xs) = p x || any p xs

  abbrev pub all : (A → Bool) → List A → Bool
  all p [] = true
  all p (x ∷ xs) = p x && all p xs

  -- `retain(p)`, `filter(p)`
  abbrev pub retain : (A → Bool) → List A → List A
  retain p [] = []
  retain p (x ∷ xs) = let rest = retain p xs in if p x then x ∷ rest else rest

  -- `filter_map(f)`
  abbrev pub keep_some {κ} : {B : Type κ} → (A → Option B) → List A → List B
  keep_some f [] = []
  keep_some f (x ∷ xs) = elim (f x) [ none ↦ keep_some f xs | some b ↦ b ∷ keep_some f xs ]

module _ {ℓ κ} {A : Type ℓ} (P : A → Type κ) where
  abbrev pub All : List A → Type κ
  All [] = Unit
  All (x ∷ xs) = P x × All xs

module _ {ℓ} {A : Type ℓ} (p : A → Bool) where
  pub All-false_of_any : (xs : List A) → any p xs ≡ false → All (λ x. p x ≡ false) xs
  All-false_of_any [] h = tt
  All-false_of_any (x ∷ xs) h = (ground arith, All-false_of_any xs (ground arith))

  pub any-eq-false : (xs : List A) → All (λ x. p x ≡ false) xs → any p xs ≡ false
  any-eq-false [] h = refl
  any-eq-false (x ∷ xs) (h, hs) = ground (arith, any-eq-false xs hs)

pub All-map_of {ℓ κ} :
    {A : Type ℓ} (P Q : A → Type κ) → ((x : A) → P x → Q x) → (xs : List A) → All P xs → All Q xs
All-map_of P Q f [] h = tt
All-map_of P Q f (x ∷ xs) (h, hs) = (f x h, All-map_of P Q f xs hs)
