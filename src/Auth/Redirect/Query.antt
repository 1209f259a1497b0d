-- ===== src/Auth/Redirect/Query.antt =====
-- crates/muxa-auth/src/redirect.rs, `with_query`: what it keeps of the path.
use mathlib.Core.Path.{subst}
use muxa.Auth.Redirect.Safety.{IsOnSite}
use muxa.Prelude.{
  inl, inr, Bool-cases, Option-cases, ℕ, ◌≡◌, ◌≢◌, refl, false, Option, none, some, List, [], ◌∷◌,
  ◌++◌, eqb, if◌then◌else◌, arith, All,
}
use muxa.Prelude.Text.{Text, contains_char, split_once, is_control}
use muxa.Auth.Redirect.{add_query, with_query}

split_once-absent : (d : ℕ) (s : Text) → contains_char s d ≡ false → split_once d s ≡ none
unfolding split_once contains_char
split_once-absent d [] h = refl
split_once-absent d (c ∷ s) h = ground (arith, split_once-absent d s)

split_once-append :
    (d : ℕ) (s after : Text)
    → contains_char s d ≡ false
    → split_once d (s ++ d ∷ after) ≡ some (s, after)
unfolding split_once contains_char
split_once-append d [] after h = ground arith
split_once-append d (c ∷ s) after h = ground (arith, split_once-append d s after)

-- For a path whose part before the fragment is given and at least one pair, the query string goes
-- behind that part and before the fragment, which stays: `&` joins it where the part has a query
-- already, `?` where it has none.
with_query-before_fragment :
    (finish : List (Text × Text) → Text) (base fragment : Text) (pair : Text × Text)
    (pairs : List (Text × Text))
    → contains_char base b'#' ≡ false
    → let query = (if contains_char base b'?' then b'&' else b'?') ∷ finish (pair ∷ pairs) in
      (with_query finish base (pair ∷ pairs) ≡ base ++ query)
      × (with_query finish (base ++ b'#' ∷ fragment) (pair ∷ pairs)
          ≡ (base ++ query) ++ b'#' ∷ fragment)
unfolding with_query
with_query-before_fragment finish base fragment pair pairs h = (
  rw (split_once-absent b'#' base h, with_query),
  rw (split_once-append b'#' base fragment h, with_query),
)

-- Behind the first slash comes no second one, which a browser would read as another host.
abbrev pub StaysOnHost : Text → Type 0
StaysOnHost [] = Unit
StaysOnHost (c ∷ rest) = (c ≢ b'/') × (c ≢ b'\\')

abbrev IsRooted : Text → Type 0
IsRooted [] = ⊥
IsRooted (c ∷ rest) = (c ≡ b'/') × StaysOnHost rest

-- A character that a browser neither drops nor reads as a slash.
abbrev pub IsKept : ℕ → Type 0
IsKept c = (c ≢ b'\\') × (is_control c ≡ false)

abbrev pub IsLocal : Text → Type 0
IsLocal path = IsRooted path × All IsKept path

IsRooted-of_IsOnSite : (path : Text) → IsOnSite path → IsRooted path
IsRooted-of_IsOnSite [] h = ground (arith, h.rooted)
IsRooted-of_IsOnSite (c ∷ []) h = (ground (arith, h.rooted), tt)
IsRooted-of_IsOnSite (c ∷ d ∷ s) h =
    (ground (arith, h.rooted), (ground (arith, h.rooted, h.one_slash s), h.no_backslash.1.0))

All-both :
    (path : Text)
    → All (λ c. c ≢ b'\\') path
    → All (λ c. is_control c ≡ false) path
    → All IsKept path
All-both [] h k = tt
All-both (c ∷ s) h k = ((h.0, k.0), All-both s h.1 k.1)

pub IsLocal-of_IsOnSite : (path : Text) → IsOnSite path → IsLocal path
IsLocal-of_IsOnSite path h =
    (IsRooted-of_IsOnSite path h, All-both path h.no_backslash h.no_control)

IsKept-append : (s t : Text) → All IsKept s → All IsKept t → All IsKept (s ++ t)
IsKept-append [] t h k = k
IsKept-append (c ∷ s) t h k = (h.0, IsKept-append s t h.1 k)

IsKept-both : (s t : Text) → All IsKept (s ++ t) → All IsKept s × All IsKept t
IsKept-both [] t h = (tt, h)
IsKept-both (c ∷ s) t h = ((h.0, (IsKept-both s t h.1).0), (IsKept-both s t h.1).1)

-- What stands before the fragment is as local as the whole.
IsRooted-first : (base after : Text) → IsRooted (base ++ b'#' ∷ after) → IsRooted base
IsRooted-first [] after h = ground arith
IsRooted-first (c ∷ []) after h = (h.0, tt)
IsRooted-first (c ∷ d ∷ s) after h = h

IsRooted-append :
    (base : Text) (sep : ℕ) (after : Text)
    → sep ≢ b'/'
    → sep ≢ b'\\'
    → IsRooted base
    → IsRooted (base ++ sep ∷ after)
IsRooted-append [] sep after p q h = absurd h
IsRooted-append (c ∷ []) sep after p q h = (h.0, (p, q))
IsRooted-append (c ∷ d ∷ s) sep after p q h = h

split_once-eq_append :
    (d : ℕ) (s before after : Text)
    → split_once d s ≡ some (before, after)
    → s ≡ before ++ d ∷ after
unfolding split_once
split_once-eq_append d [] before after h = cc
split_once-eq_append d (c ∷ s) before after h = elim (Bool-cases (eqb d c)) [
  | inl here ↦ ground arith
  | inr later ↦ elim (Option-cases (split_once d s)) [
    | inl missed ↦ ground arith
    | inr ((b, a), found) ↦ ground (arith, split_once-eq_append d s b a found)
  ]
]

add_query-IsRooted :
    (base : Text) (fragment : Option Text) (query : Text)
    → IsRooted base
    → IsRooted (add_query base fragment query)
unfolding add_query
add_query-IsRooted base none query h = IsRooted-append base _ query (ground arith) (ground arith) h
add_query-IsRooted base (some fragment) query h =
    IsRooted-append (base ++ _ ∷ query) b'#' fragment (ground arith) (ground arith)
      (IsRooted-append base _ query (ground arith) (ground arith) h)

abbrev IsKeptFragment : Option Text → Type 0
IsKeptFragment none = Unit
IsKeptFragment (some fragment) = All IsKept fragment

add_query-IsKept :
    (base : Text) (fragment : Option Text) (query : Text)
    → All IsKept base
    → IsKeptFragment fragment
    → All IsKept query
    → All IsKept (add_query base fragment query)
unfolding add_query
add_query-IsKept base none query h f q = IsKept-append base _ h ((ground arith, ground arith), q)
add_query-IsKept base (some fragment) query h f q =
    IsKept-append (base ++ _ ∷ query) _ (IsKept-append base _ h ((ground arith, ground arith), q))
      ((ground arith, ground arith), f)

-- Adding a query string to a path on this site gives a path on this site, where the serializer
-- writes no control characters and no backslashes.
pub with_query-IsLocal :
    (finish : List (Text × Text) → Text)
    (kept : (pairs : List (Text × Text)) → All IsKept (finish pairs)) (path : Text)
    (pairs : List (Text × Text))
    → IsLocal path
    → IsLocal (with_query finish path pairs)
unfolding with_query
with_query-IsLocal finish kept path [] h = h
with_query-IsLocal finish kept path (pair ∷ pairs) h = elim (Option-cases (split_once b'#' path)) [
  | inl missed ↦
      rw (missed, with_query)
        (
          add_query-IsRooted path none (finish (pair ∷ pairs)) h.0,
          add_query-IsKept path none (finish (pair ∷ pairs)) h.1 tt (kept (pair ∷ pairs)),
        )
  | inr ((base, fragment), found) ↦
      let parts = split_once-eq_append b'#' path base fragment found in
      let (before, behind) = IsKept-both base (b'#' ∷ fragment) (subst (All IsKept) parts h.1) in
      rw (found, with_query)
        (
          add_query-IsRooted base (some fragment) (finish (pair ∷ pairs))
              (IsRooted-first base fragment (subst IsRooted parts h.0)),
          add_query-IsKept base (some fragment) (finish (pair ∷ pairs)) before behind.1
              (kept (pair ∷ pairs)),
        )
]
