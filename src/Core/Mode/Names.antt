-- ===== src/Core/Mode/Names.antt =====
-- The labels of crates/muxa-core/src/mode.rs.
use muxa.Prelude.{
  ◌≤◌, ◌+◌, ◌≡◌, refl, sym, ap, ◌∙◌, ◌↔◌, ◌⊎◌, inl, inr, Bool, true, false, ◌&&◌, none, some, [],
  ◌∷◌, ℕ, map, arith, if◌then◌else◌, Bool-cases,
}
use muxa.Prelude.Text.{
  Text, codes, trim, trim_start, trim_end, is_whitespace, is_empty, is_upper, to_lower,
  to_ascii_lowercase, str_ops,
}
use muxa.Prelude.Text.Laws.{==_iff}
use muxa.Prelude.Effects.{ok, Result-cases}
use muxa.Core.Mode.{
  RunMode, development, production, from_label, from_str, as_str, from_figment, from_build_profile,
}

-- The names of a mode, in lower case.
abbrev pub Names : RunMode → Text → Type 0
Names development label =
    (label ≡ codes "development") ⊎ (label ≡ codes "dev") ⊎ (label ≡ codes "debug")
Names production label =
    (label ≡ codes "production") ⊎ (label ≡ codes "prod") ⊎ (label ≡ codes "release")

Names-of_from_label : (label : Text) (m : RunMode) → from_label label ≡ ok m → Names m label
unfolding from_label
Names-of_from_label label development h = ground (
  arith,
  ==_iff label (codes "development"),
  ==_iff label (codes "dev"),
  ==_iff label (codes "debug"),
)
Names-of_from_label label production h = ground (
  arith,
  ==_iff label (codes "production"),
  ==_iff label (codes "prod"),
  ==_iff label (codes "release"),
)

from_label_of_Names : (label : Text) (m : RunMode) → Names m label → from_label label ≡ ok m
unfolding from_label str_ops
from_label_of_Names label development (inl e) = rw e refl
from_label_of_Names label development (inr (inl e)) = rw e refl
from_label_of_Names label development (inr (inr e)) = rw e refl
from_label_of_Names label production (inl e) = rw e refl
from_label_of_Names label production (inr (inl e)) = rw e refl
from_label_of_Names label production (inr (inr e)) = rw e refl

-- A text is read as a mode exactly when it is one of the mode's three names, but for case and the
-- white space around it.
from_str_iff :
    (raw : Text) (m : RunMode) → (from_str raw ≡ ok m) ↔ Names m (to_ascii_lowercase (trim raw))
unfolding from_str
from_str_iff raw m = (
  Names-of_from_label (to_ascii_lowercase (trim raw)) m,
  from_label_of_Names (to_ascii_lowercase (trim raw)) m,
)

to_lower_idempotent : (c : ℕ) → to_lower (to_lower c) ≡ to_lower c
unfolding to_lower
to_lower_idempotent c = ground arith

not_white : (c : ℕ) → 65 ≤ c → c ≤ 122 → is_whitespace c ≡ false
not_white c h k = ground arith

is_whitespace-to_lower : (c : ℕ) → is_whitespace (to_lower c) ≡ is_whitespace c
unfolding to_lower
is_whitespace-to_lower c = elim (Bool-cases (is_upper c)) [
  | inr other ↦ rw other
  | inl upper ↦
      let low : 65 ≤ c = ground arith in
      let high : c ≤ 90 = ground arith in
      rw upper
        (not_white (c + 32) (omega arith) (omega arith) ∙ sym (not_white c low (omega arith)))
]

map-to_lower_idempotent : (s : Text) → map to_lower (map to_lower s) ≡ map to_lower s
map-to_lower_idempotent [] = refl
map-to_lower_idempotent (c ∷ s) = ground (arith, to_lower_idempotent c, map-to_lower_idempotent s)

is_empty-map : (s : Text) → is_empty (map to_lower s) ≡ is_empty s
is_empty-map [] = refl
is_empty-map (c ∷ s) = refl

trim_start-map :
    (s : Text)
    → trim_start is_whitespace (map to_lower s) ≡ map to_lower (trim_start is_whitespace s)
unfolding trim_start
trim_start-map [] = refl
trim_start-map (c ∷ s) = elim (Bool-cases (is_whitespace c)) [
  | inl white ↦ rw (is_whitespace-to_lower c) (rw white (trim_start-map s))
  | inr black ↦ rw (is_whitespace-to_lower c) (rw black)
]

map-if :
    (b : Bool) (c : ℕ) (s : Text)
    → (if b then [] else to_lower c ∷ map to_lower s) ≡ map to_lower (if b then [] else c ∷ s)
map-if true c s = refl
map-if false c s = refl

trim_end-map :
    (s : Text) → trim_end is_whitespace (map to_lower s) ≡ map to_lower (trim_end is_whitespace s)
unfolding trim_end
trim_end-map [] = refl
trim_end-map (c ∷ s) = rw (is_whitespace-to_lower c) (
    rw (trim_end-map s) (
      rw (is_empty-map (trim_end is_whitespace s)) (
        map-if (is_whitespace c && is_empty (trim_end is_whitespace s)) c
          (trim_end is_whitespace s))))

-- The case of the letters in a label does not matter, not even to the error.
pub from_str-to_ascii_lowercase : (raw : Text) → from_str (to_ascii_lowercase raw) ≡ from_str raw
unfolding from_str trim to_ascii_lowercase
from_str-to_ascii_lowercase raw = ap from_label (
    ap (λ t. map to_lower (trim_end is_whitespace t)) (trim_start-map raw)
    ∙ ap (map to_lower) (trim_end-map (trim_start is_whitespace raw))
    ∙ map-to_lower_idempotent (trim raw))

-- The mode is the one that the `env` key names, whatever the build profile; without the key, or with
-- one that names no mode, it is the build profile's.
from_figment_cases :
    (debug_assertions : Bool) (raw : Text)
    → (((m : RunMode) × Names m (to_ascii_lowercase (trim raw))
          × (from_figment debug_assertions (some raw) ≡ m))
        ⊎ (((m : RunMode) → ¬ Names m (to_ascii_lowercase (trim raw)))
            × (from_figment debug_assertions (some raw) ≡ from_build_profile debug_assertions)))
      × (from_figment debug_assertions none ≡ from_build_profile debug_assertions)
unfolding from_figment
from_figment_cases debug_assertions raw = (
  elim (Result-cases (from_str raw)) [
    | inl (m, e) ↦ inl (m, (from_str_iff raw m).0 e, rw e refl)
    | inr (x, e) ↦ inr (λ m h. ground (arith, e, (from_str_iff raw m).1 h), rw e refl)
  ],
  refl,
)

-- Printing a mode and reading it back gives the mode.
pub from_str-as_str : (m : RunMode) → from_str (as_str m) ≡ ok m
unfolding from_str str_ops
from_str-as_str development = refl
from_str-as_str production = refl
