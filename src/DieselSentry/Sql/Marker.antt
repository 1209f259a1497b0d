-- ===== src/DieselSentry/Sql/Marker.antt =====
-- `write_sql` of crates/diesel-sentry/src/lib.rs: what is kept has no binds marker.
use muxa.Prelude.{
  ℕ, ◌≡◌, refl, sym, ap, ◌∙◌, inl, inr, Bool, true, false, ◌&&◌, Option, none, some, [], ◌∷◌, ◌++◌,
  arith, Bool-cases,
}
use mathlib.Core.List.{append-nil, append_assoc}
use muxa.Prelude.Text.{
  Text, starts_with, strip_prefix, contains, is_empty, is_whitespace, trim_end, codes,
}
use muxa.Prelude.Text.Laws.{IsPrefix, contains_iff}
use muxa.DieselSentry.Sql.{binds_marker, Display, before_first, write_sql}
use muxa.DieselSentry.Sql.Cut.{rendered, cut_or_all, before_later, starts_with-append, render-eq}

before_first-IsPrefix : (m s b : Text) → before_first m s ≡ some b → IsPrefix b s
unfolding before_first
before_first-IsPrefix m [] b h = (b, ground (arith, append-nil b))
before_first-IsPrefix m (c ∷ s) b h = elim (Bool-cases (starts_with (c ∷ s) m)) [
  | inl here ↦ (c ∷ s, ground arith)
  | inr later ↦
      let (b', e, q) = before_later m s c b later h in
      let (rest, split) = before_first-IsPrefix m s b' e in
      (rest, ap (λ t. c ∷ t) split ∙ ap (λ t. t ++ rest) (sym q))
]

trim_end-IsPrefix : (p : ℕ → Bool) (s : Text) → IsPrefix (trim_end p s) s
unfolding trim_end
trim_end-IsPrefix p [] = ([], refl)
trim_end-IsPrefix p (c ∷ s) = elim (Bool-cases (p c && is_empty (trim_end p s))) [
  | inl drops ↦ rw drops (c ∷ s, refl)
  | inr keeps ↦ let (rest, split) = trim_end-IsPrefix p s in rw keeps (rest, ap (λ t. c ∷ t) split)
]

occurs_longer :
    (m s t rest before after : Text)
    → t ≡ s ++ rest
    → s ≡ before ++ (m ++ after)
    → t ≡ before ++ (m ++ (after ++ rest))
occurs_longer m s t rest before after split found =
    split
    ∙ (ap (λ u. u ++ rest) found
        ∙ (append_assoc before (m ++ after) rest
            ∙ ap (λ u. before ++ u) (append_assoc m after rest)))

contains-IsPrefix : (m s t : Text) → IsPrefix s t → contains t m ≡ false → contains s m ≡ false
contains-IsPrefix m s t (rest, split) h = ground (arith, longer)
  where
    longer : contains s m ≡ true → contains t m ≡ true
    longer e =
        let (before, after, found) = (contains_iff s m).0 e in
        (contains_iff t m).1
          (before, after ++ rest, occurs_longer m s t rest before after split found)

starts_with_shorter :
    (m s b : Text) (c : ℕ)
    → IsPrefix b s
    → starts_with (c ∷ s) m ≡ false
    → starts_with (c ∷ b) m ≡ false
starts_with_shorter m s b c (rest, split) h = ground (arith, longer)
  where
    longer : starts_with (c ∷ b) m ≡ true → starts_with (c ∷ s) m ≡ true
    longer e = ap (λ t. starts_with (c ∷ t) m) split ∙ starts_with-append m (c ∷ b) rest e

contains-later :
    (d : ℕ) (m s : Text) (c : ℕ)
    → starts_with (c ∷ s) (d ∷ m) ≡ false
    → (o : Option Text) → before_first (d ∷ m) s ≡ o
    → contains (cut_or_all s (before_first (d ∷ m) s)) (d ∷ m) ≡ false
    → contains (cut_or_all (c ∷ s) (before_first (d ∷ m) (c ∷ s))) (d ∷ m) ≡ false
unfolding before_first contains
contains-later d m s c here none e h =
    let h' = sym (ap (λ o. contains (cut_or_all s o) (d ∷ m)) e) ∙ h in
    rw (here, e) (rw (here, h') refl)
contains-later d m s c here (some b) e h =
    let h' = sym (ap (λ o. contains (cut_or_all s o) (d ∷ m)) e) ∙ h in
    let not_here = starts_with_shorter (d ∷ m) s b c (before_first-IsPrefix (d ∷ m) s b e) here in
    rw (here, e) (rw (not_here, h') refl)

contains-before_first :
    (d : ℕ) (m s : Text) → contains (cut_or_all s (before_first (d ∷ m) s)) (d ∷ m) ≡ false
unfolding before_first contains
contains-before_first d m [] = refl
contains-before_first d m (c ∷ s) = elim (Bool-cases (starts_with (c ∷ s) (d ∷ m))) [
  | inl here ↦ rw here refl
  | inr later ↦
      contains-later d m s c later (before_first (d ∷ m) s) refl (contains-before_first d m s)
]

binds_marker-nil : before_first binds_marker [] ≡ none
unfolding before_first starts_with strip_prefix
binds_marker-nil = refl

-- However a query's `Display` cuts what it writes into chunks, and whatever it does after a write is
-- refused, the SQL put on the span is what plain formatting writes up to the first binds marker, or
-- all of it where the marker does not occur, without the white space at its end; the
-- marker does not occur in it.
pub write_sql_lem :
    (query : Display)
    → (write_sql query
        ≡ trim_end is_whitespace
            (cut_or_all (rendered query) (before_first binds_marker (rendered query))))
      × (contains (write_sql query) binds_marker ≡ false)
unfolding write_sql
write_sql_lem query =
    let kept = cut_or_all (rendered query) (before_first binds_marker (rendered query)) in
    let e = ap (trim_end is_whitespace) (render-eq query [] (binds_marker-nil)) in
    (
      e,
      contains-IsPrefix binds_marker (write_sql query) kept
          (let (rest, split) = trim_end-IsPrefix is_whitespace kept in
            (rest, split ∙ ap (λ t. t ++ rest) (sym e)))
          (contains-before_first b' ' (codes "-- binds:") (rendered query)),
    )
