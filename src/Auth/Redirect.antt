-- ===== src/Auth/Redirect.antt =====
-- crates/muxa-auth/src/redirect.rs: redirect targets. The `form_urlencoded` serializer of the crate
-- `url` is a parameter: the function from pairs to the query string that it finishes with.
pub mod Safety
pub mod Query
mod Tests
use muxa.Prelude.{
  ℕ, Bool, true, false, ◌&&◌, not, Option, none, some, List, [], ◌∷◌, ◌++◌, any, leb,
}
use muxa.Prelude.{if◌then◌else◌}
use muxa.Prelude.Text.{
  Text, codes, starts_with, contains, contains_char, is_control, len, split_once,
}

-- The guard of the arm that keeps `path`.
unfoldable pub on_site : Text → Bool
on_site path =
    starts_with path (codes "/")
    && not (starts_with path (codes "//"))
    && not (contains_char path b'\\')
    && not (contains path (codes "://"))
    && not (any is_control path)
    && leb (len path) 2048

unfoldable pub safe_next : Option Text → Text → Text
unfolding on_site
safe_next (some path) fallback = if on_site path then path else fallback
safe_next none fallback = fallback

-- `base{separator}{query}`, and the fragment behind it
pub add_query : Text → Option Text → Text → Text
add_query base fragment query =
    let separator : ℕ = if contains_char base b'?' then b'&' else b'?' in
    let out = base ++ separator ∷ query in
    elim fragment [ none ↦ out | some fragment ↦ out ++ b'#' ∷ fragment ]

unfoldable pub with_query : (List (Text × Text) → Text) → Text → List (Text × Text) → Text
unfolding add_query
with_query finish path [] = path
with_query finish path (pair ∷ pairs) = elim (split_once b'#' path) [
  | some (base, fragment) ↦ add_query base (some fragment) (finish (pair ∷ pairs))
  | none ↦ add_query path none (finish (pair ∷ pairs))
]
