-- ===== src/Web/Spa/Paths.antt =====
-- crates/muxa-web/src/spa.rs: which paths are under a prefix, and which are not for the client.
use muxa.Prelude.{
  ◌≡◌, refl, sym, ap, ◌∙◌, ◌↔◌, ◌⊎◌, inl, inr, Bool, true, false, not, ◌||◌, ◌&&◌, none, some, List,
  [], ◌∷◌, ◌++◌, any, eqb, arith, Bool-cases, Option-cases, if◌then◌else◌,
}
use muxa.Prelude.Text.{Text, starts_with, strip_prefix, trim_end}
use muxa.Prelude.Text.Laws.{strip_prefix-append, eq_append_of_strip_prefix}
use muxa.Web.Spa.{immutable, SpaConfig, under, at_segment, Method, reads, excluded}

abbrev pub StartsSegment : Text → Type 0
StartsSegment [] = Unit
StartsSegment (c ∷ rest) = c ≡ b'/'

-- The path is the prefix, without the slashes at its end, or goes on behind it with a new segment.
abbrev pub IsUnder : Text → Text → Type 0
IsUnder path prefix =
    (rest : Text) × (path ≡ trim_end (eqb b'/') prefix ++ rest) × StartsSegment rest

at_segment_iff : (rest : Text) → (at_segment (some rest) ≡ true) ↔ StartsSegment rest
unfolding starts_with strip_prefix
at_segment_iff [] = (λ h. tt, λ h. refl)
at_segment_iff (c ∷ rest) = (λ h. ground arith, λ h. ground arith)

pub under_iff : (path prefix : Text) → (under path prefix ≡ true) ↔ IsUnder path prefix
unfolding under
under_iff path prefix =
    let base = trim_end (eqb b'/') prefix in
    (
      λ h. elim (Option-cases (strip_prefix path base)) [
        | inl bad ↦ ground (arith, bad)
        | inr (rest, e) ↦ (
          rest,
          eq_append_of_strip_prefix path base rest e,
          (at_segment_iff rest).0 (ap at_segment (sym e) ∙ h),
        )
      ],
      λ (rest, e, seg).
          ap (λ p. at_segment (strip_prefix p base)) e
          ∙ ap at_segment (strip_prefix-append base rest)
          ∙ (at_segment_iff rest).1 seg,
    )

-- A path of the server's: under an excluded prefix, or under that of the assets.
abbrev pub IsExcluded : List Text → Text → Type 0
IsExcluded [] path = ⊥
IsExcluded (prefix ∷ prefixes) path = IsUnder path prefix ⊎ IsExcluded prefixes path

IsExcluded-of_any :
    (prefixes : List Text) (path : Text)
    → any (under path) prefixes ≡ true
    → IsExcluded prefixes path
IsExcluded-of_any [] path h = ground arith
IsExcluded-of_any (prefix ∷ prefixes) path h = elim (Bool-cases (under path prefix)) [
  | inl y ↦ inl ((under_iff path prefix).0 y)
  | inr n ↦ inr (IsExcluded-of_any prefixes path (ground (arith, n)))
]

any-of_IsExcluded :
    (prefixes : List Text) (path : Text)
    → IsExcluded prefixes path
    → any (under path) prefixes ≡ true
any-of_IsExcluded [] path e = absurd e
any-of_IsExcluded (prefix ∷ prefixes) path (inl u) = ground (arith, (under_iff path prefix).1 u)
any-of_IsExcluded (prefix ∷ prefixes) path (inr e) =
    ground (arith, any-of_IsExcluded prefixes path e)

excluded_iff :
    (cfg : SpaConfig) (path : Text)
    → (excluded cfg path ≡ true) ↔ IsExcluded (cfg.exclude_prefixes ++ cfg.assets_prefix ∷ []) path
excluded_iff cfg path = (IsExcluded-of_any _ path, any-of_IsExcluded _ path)

pub if_both : (b : Bool) → (if b && false then some immutable else none) ≡ none
if_both true = refl
if_both false = refl

abbrev pub prefixes : SpaConfig → List Text
prefixes cfg = cfg.exclude_prefixes ++ cfg.assets_prefix ∷ []

pub refused_cases :
    (cfg : SpaConfig) (method : Method) (path : Text)
    → (excluded cfg path || not (reads method)) ≡ true
    → IsExcluded (prefixes cfg) path ⊎ (reads method ≡ false)
refused_cases cfg method path h = elim (Bool-cases (excluded cfg path)) [
  | inl out ↦ inl ((excluded_iff cfg path).0 out)
  | inr inside ↦ inr (ground (arith, inside))
]

pub taken_of :
    (cfg : SpaConfig) (method : Method) (path : Text)
    → (excluded cfg path || not (reads method)) ≡ false
    → (¬ IsExcluded (prefixes cfg) path) × (reads method ≡ true)
taken_of cfg method path h = (λ x. ground (arith, (excluded_iff cfg path).1 x), ground arith)

IsExcluded-last : (ps : List Text) (p path : Text) → IsUnder path p → IsExcluded (ps ++ p ∷ []) path
IsExcluded-last [] p path u = inl u
IsExcluded-last (q ∷ ps) p path u = inr (IsExcluded-last ps p path u)

pub lacks_of :
    (b : Bool) (path prefix : Text)
    → (b && under path prefix) ≡ false
    → (b ≡ false) ⊎ (¬ IsUnder path prefix)
lacks_of false path prefix h = inl refl
lacks_of true path prefix h = inr (λ u. ground (arith, (under_iff path prefix).1 u))

pub outside_assets :
    (cfg : SpaConfig) (path : Text)
    → ¬ IsExcluded (prefixes cfg) path
    → under path cfg.assets_prefix ≡ false
outside_assets cfg path h = elim (Bool-cases (under path cfg.assets_prefix)) [
  | inl y ↦ absurd (
      h (
        IsExcluded-last cfg.exclude_prefixes cfg.assets_prefix path
          ((under_iff path cfg.assets_prefix).0 y)))
  | inr n ↦ n
]
