-- ===== src/DieselSentry/Sql.antt =====
-- crates/diesel-sentry/src/lib.rs: the SQL of a query, rendered without its bind values.
pub mod Cut
pub mod Marker
mod Tests
use muxa.Prelude.{
  ℕ, ◌-◌, Bool, true, false, Option, none, some, List, [], ◌∷◌, ◌++◌, zero, suc, any, map,
  if◌then◌else◌, ◌||◌,
}
use muxa.Prelude.Text.{
  Text, codes, len, len_utf8, starts_with, trim_end, trim_start, split_once, is_whitespace,
  is_lower, to_upper, eq_ignore_ascii_case,
}

abbrev pub binds_marker : Text
binds_marker = codes " -- binds:"

-- What a `Display` does: it writes chunks, and how it goes on may depend on whether a chunk was
-- accepted; at the end it succeeds or fails.
pub data Display : Type 0 where
  ends : (success : Bool) → Display
  writes : (chunk : Text) → (Bool → Display) → Display

-- The sink `UntilBinds`: what it has kept, and whether it has seen the marker.
pub record UntilBinds : Type 0 where
  pub buf : Text
  pub cut : Bool

-- `&s[..n]` and `&s[n..]`. A character that `n` stands inside goes to the first part: no window that
-- starts in it is the marker, which is ASCII.
unfoldable pub split_at : ℕ → Text → Text × Text
split_at zero s = ([], s)
split_at (suc n) [] = ([], [])
split_at (suc n) (c ∷ s) =
    let (before, after) = split_at (suc n - len_utf8 c) s in (c ∷ before, after)

-- What stands before the first occurrence of the marker.
unfoldable pub before_first : Text → Text → Option Text
before_first marker [] = if starts_with [] marker then some [] else none
before_first marker (c ∷ s) =
    if starts_with (c ∷ s) marker
    then some []
    else elim (before_first marker s) [ none ↦ none | some before ↦ some (c ∷ before) ]

abbrev pub after_search : Text → Text → Option Text → Bool × UntilBinds
after_search written front none = (true, record { buf = written; cut = false })
after_search written front (some before) = (false, record { buf = front ++ before; cut = true })

-- `write_str`, and whether it accepts the chunk.
unfoldable pub write_str : Text → UntilBinds → Bool × UntilBinds
unfolding split_at before_first len
write_str chunk sink =
    let written = sink.buf ++ chunk in
    let (front, back) = split_at (len sink.buf - len binds_marker) written in
    if sink.cut then (false, sink) else after_search written front (before_first binds_marker back)

unfoldable pub render : Display → UntilBinds → UntilBinds
unfolding write_str
render (ends success) sink = sink
render (writes chunk rest) sink =
    let (accepted, sink') = write_str chunk sink in render (rest accepted) sink'

unfoldable pub write_sql : Display → Text
unfolding render trim_end
write_sql query = trim_end is_whitespace (render query (record { buf = []; cut = false })).buf

-- `split_whitespace().next().unwrap_or("")`
unfoldable pub first_word : Text → Text
first_word [] = []
first_word (c ∷ s) = let rest = first_word s in if is_whitespace c then [] else c ∷ rest

unfoldable pub operation : Text → Text
unfolding first_word trim_start to_upper
operation sql =
    let op = first_word (trim_start is_whitespace sql) in
    if any is_lower op then map to_upper op else op

abbrev pub other_sql : Text
other_sql = codes "other_sql"

abbrev pub scheme_of : Option (Text × Text) → Text
scheme_of none = []
scheme_of (some (scheme, rest)) = scheme

abbrev pub system_of : Text → Text
system_of scheme =
    let is = eq_ignore_ascii_case scheme in
    if is (codes "postgres") || is (codes "postgresql")
    then codes "postgresql"
    else if is (codes "mysql") || is (codes "mariadb")
    then codes "mysql"
    else if is (codes "sqlite") || is (codes "file")
    then codes "sqlite"
    else other_sql

unfoldable pub db_system : Text → Text
unfolding split_once eq_ignore_ascii_case
db_system url = system_of (scheme_of (split_once b':' url))
