-- ===== src/Telemetry/Targets.antt =====
-- crates/muxa-telemetry/src/lib.rs: which targets are hidden from plugin layers.
use muxa.Prelude.{
  ◌≡◌, refl, sym, ap, ◌∙◌, ◌⊎◌, inl, inr, ◌↔◌, Bool, true, not, ◌&&◌, ◌||◌, Option, none, some,
  List, [], ◌∷◌, ◌++◌, any, arith, Bool-cases,
}
use muxa.Prelude.Text.{Text, codes, ◌==◌, strip_prefix}
use muxa.Prelude.Text.Laws.{
  IsPrefix, starts_with_iff, eq_append_of_strip_prefix, strip_prefix-append, ==_iff,
}
use muxa.Telemetry.{in_crate_rest, in_crate, is_excluded, exclude_all, plugin_filter}
use mathlib.Core.List.{append-nil, append_assoc}

-- A target is the crate itself, or a path below it.
abbrev pub InCrate : Text → Text → Type 0
InCrate target krate = (target ≡ krate) ⊎ IsPrefix (krate ++ codes "::") target

in_crate-append : (krate rest : Text) → in_crate (krate ++ rest) krate ≡ in_crate_rest (some rest)
unfolding in_crate
in_crate-append krate rest = ap in_crate_rest (strip_prefix-append krate rest)

InCrate-of_rest :
    (target krate rest : Text)
    → target ≡ krate ++ rest
    → in_crate_rest (some rest) ≡ true
    → InCrate target krate
InCrate-of_rest target krate [] e h = inl (e ∙ append-nil krate)
InCrate-of_rest target krate (c ∷ rest) e h =
    let (below, e') = (starts_with_iff (c ∷ rest) (codes "::")).0 h in
    inr (below, e ∙ (ap (λ r. krate ++ r) e' ∙ sym (append_assoc krate (codes "::") below)))

pub in_crate_iff : (target krate : Text) → (in_crate target krate ≡ true) ↔ InCrate target krate
unfolding in_crate
in_crate_iff target krate = (to (strip_prefix target krate) refl, from)
  where
    to :
        (o : Option Text)
        → strip_prefix target krate ≡ o
        → in_crate_rest o ≡ true
        → InCrate target krate
    to none e h = absurd (ground arith)
    to (some rest) e h =
        InCrate-of_rest target krate rest (eq_append_of_strip_prefix target krate rest e) h

    from : InCrate target krate → in_crate target krate ≡ true
    from (inl e) =
        ap (λ t. in_crate t krate) (e ∙ sym (append-nil krate)) ∙ in_crate-append krate []
    from (inr (below, e)) =
        ap (λ t. in_crate t krate) (e ∙ append_assoc krate (codes "::") below)
        ∙ (in_crate-append krate (codes "::" ++ below)
            ∙ (starts_with_iff (codes "::" ++ below) (codes "::")).1 (below, refl))

any-append :
    (p : Text → Bool) (xs : List Text) (x : Text) → any p (xs ++ x ∷ []) ≡ (any p xs || p x)
any-append p [] x = ground arith
any-append p (y ∷ xs) x = ground (arith, any-append p xs x)

-- What a list that is already known adds nothing to.
pub any-member :
    (p : Text → Bool) (xs : List Text) (x : Text)
    → any (λ t. t == x) xs ≡ true
    → p x ≡ true
    → any p xs ≡ true
any-member p (y ∷ xs) x h px = ground (arith, any-member p xs x, ==_iff y x)
any-member p [] x h px = cc

any-exclude_all :
    (p : Text → Bool) (targets excluded : List Text)
    → any p (exclude_all targets excluded) ≡ (any p excluded || any p targets)
unfolding exclude_all
any-exclude_all p [] excluded = ground arith
any-exclude_all p (target ∷ targets) excluded =
    elim (Bool-cases (any (λ t. t == target) excluded)) [
      | inl known ↦
          rw known
            (ground (arith, any-exclude_all p targets excluded, any-member p excluded target known))
      | inr new ↦ rw new (
          ground (
            arith,
            any-exclude_all p targets (excluded ++ target ∷ []),
            any-append p excluded target,
          ))
    ]

-- After targets are excluded, a plugin layer sees of a target what it saw before, unless the target
-- is in one of the crates named; and it is in a crate when it is the crate itself or a path below
-- it, so that a crate whose name only begins with the crate's is not hidden.
pub exclude_all-hides :
    (level_passes : Bool) (targets excluded : List Text) (target krate : Text)
    → (plugin_filter level_passes true (exclude_all targets excluded) target
        ≡ (plugin_filter level_passes true excluded target && not (any (in_crate target) targets)))
      × ((in_crate target krate ≡ true) ↔ InCrate target krate)
unfolding plugin_filter is_excluded
exclude_all-hides level_passes targets excluded target krate =
    (ground (arith, any-exclude_all (in_crate target) targets excluded), in_crate_iff target krate)
