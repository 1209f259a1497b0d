-- ===== src/Prelude/Text/Laws.antt =====
-- Equality of texts, prefixes and substrings, each test against what it decides.
use muxa.Prelude.Tests.{Bool-cases}
use muxa.Prelude.Text.{Text, ◌==◌, strip_prefix, starts_with, contains}
use mathlib.Core.Path.{◌≡◌, refl, ap}
use mathlib.Core.Logic.{◌↔◌, ◌≢◌, inl, inr}
use mathlib.Core.Bool.{true, false}
use mathlib.Core.Option.{Option, none, some}
use mathlib.Core.List.{[], ◌∷◌, ◌++◌}
use native.Mathlib.Omega.{arith}

==-to_eq : (s t : Text) → (s == t) ≡ true → s ≡ t
unfolding ◌==◌
==-to_eq [] [] h = refl
==-to_eq [] (d ∷ t) h = cc
==-to_eq (c ∷ s) [] h = cc
==-to_eq (c ∷ s) (d ∷ t) h = ground (arith, ==-to_eq s t)

pub ==_refl : (s : Text) → (s == s) ≡ true
unfolding ◌==◌
==_refl [] = refl
==_refl (c ∷ s) = ground (arith, ==_refl s)

pub ==_iff : (s t : Text) → ((s == t) ≡ true) ↔ (s ≡ t)
==_iff s t = (==-to_eq s t, λ e. rw e (==_refl t))

pub strip_prefix-append : (p r : Text) → strip_prefix (p ++ r) p ≡ some r
unfolding strip_prefix
strip_prefix-append [] r = refl
strip_prefix-append (c ∷ p) r = ground (arith, strip_prefix-append p r)

pub eq_append_of_strip_prefix : (s p r : Text) → strip_prefix s p ≡ some r → s ≡ p ++ r
unfolding strip_prefix
eq_append_of_strip_prefix s [] r h = cc
eq_append_of_strip_prefix [] (d ∷ p) r h = cc
eq_append_of_strip_prefix (c ∷ s) (d ∷ p) r h = ground (arith, eq_append_of_strip_prefix s p r)

abbrev pub IsPrefix : Text → Text → Type 0
IsPrefix p s = (rest : Text) × (s ≡ p ++ rest)

pub starts_with_iff : (s p : Text) → (starts_with s p ≡ true) ↔ IsPrefix p s
unfolding starts_with
starts_with_iff s p = (λ h. to (strip_prefix s p) refl h, λ h. rw (h.1, strip_prefix-append p h.0))
  where
    to : (o : Option Text) → strip_prefix s p ≡ o → starts_with s p ≡ true → IsPrefix p s
    to none e h = ground arith
    to (some r) e h = (r, eq_append_of_strip_prefix s p r e)

-- `p` stands somewhere in `s`.
abbrev pub Occurs : Text → Text → Type 0
Occurs p s = (before after : Text) × (s ≡ before ++ (p ++ after))

pub Occurs-of_contains : (s p : Text) → contains s p ≡ true → Occurs p s
unfolding contains
Occurs-of_contains [] p h = let (r, e) = (starts_with_iff [] p).0 h in ([], r, e)
Occurs-of_contains (c ∷ s) p h = elim (Bool-cases (starts_with (c ∷ s) p)) [
  | inl here ↦ let (r, e) = (starts_with_iff (c ∷ s) p).0 here in ([], r, e)
  | inr later ↦
      let (before, after, e) = Occurs-of_contains s p (ground arith) in
      (c ∷ before, after, ap (λ t. c ∷ t) e)
]

contains-append : (before p after : Text) → contains (before ++ (p ++ after)) p ≡ true
unfolding contains
contains-append [] [] [] = (starts_with_iff [] []).1 ([], refl)
contains-append [] [] (c ∷ after) = rw ((starts_with_iff (c ∷ after) []).1 (c ∷ after, refl))
contains-append [] (c ∷ p) after = rw ((starts_with_iff (c ∷ (p ++ after)) (c ∷ p)).1 (after, refl))
contains-append (c ∷ before) p after = ground (arith, contains-append before p after)

pub contains_iff : (s p : Text) → (contains s p ≡ true) ↔ Occurs p s
contains_iff s p = (Occurs-of_contains s p, λ (b, a, e). rw e (contains-append b p a))

pub ne_of_test : (s t : Text) → (s == t) ≡ false → s ≢ t
ne_of_test s t h e = ground (arith, h, (==_iff s t).1 e)
