-- ===== src/Auth/Store/Tests.antt =====
-- A table held as a function, and sessions in it.
use muxa.Prelude.{ℕ, ◌≡◌, refl, ◌⊎◌, inl, inr, not, Option, none, some, ltb, arith, if◌then◌else◌}
use muxa.Prelude.Text.{Text, codes, str_ops, ◌==◌}
use muxa.Prelude.Effects.{Result, ok, err}
use muxa.Prelude.Assoc.{keep_if}
use muxa.Auth.Store.{
  Postgres, backend_error, Row, Session, encode, save, create_loop, create, load, delete,
  delete_expired,
}
use muxa.Auth.Store.Laws.{Updated, Failed, Table}
use muxa.Auth.Store.Refinement.{
  put, Run, starts, saved, swept, FailsToLoad, SessionOf, load-refines,
}

abbrev Rows : Type 0
Rows = Text → Option (ℕ × ℕ)

abbrev with_row_at : Text → Option (ℕ × ℕ) → Rows → Rows
with_row_at id row s j = if id == j then row else s j

abbrev insert_into : Row ℕ → Rows → Option (ℕ × ℕ) → Result Text ℕ × Rows
insert_into row s none = (ok 1, with_row_at row.id (some (row.content, row.expiry_date)) s)
insert_into row s (some old) = (ok 0, s)

abbrev pg : Postgres
pg = record {
  State = Rows;
  Data = ℕ;
  Value = ℕ;
  to_value = λ n. ok n;
  from_value = λ n. ok n;
  get = λ s. ok tt;
  insert = λ row s. insert_into row s (s row.id);
  upsert = λ row s. (ok tt, with_row_at row.id (some (row.content, row.expiry_date)) s);
  first = λ id now s. ok (keep_if (λ row. ltb now row.1) (s id));
  delete_id = λ id s. (ok tt, with_row_at id none s);
  delete_before = λ now s. (ok tt, λ j. keep_if (λ row. not (ltb row.1 now)) (s j));
}

insert_into_law :
    (row : Row ℕ) (s : Rows) (old : Option (ℕ × ℕ))
    → s row.id ≡ old
    → let (result, s') = insert_into row s old in
      Failed pg s (result, s')
      ⊎ (((s row.id ≡ none)
            × (result ≡ ok 1)
            × Updated pg (λ s j. s j) row.id (some (row.content, row.expiry_date)) s s')
          ⊎ ((old : ℕ × ℕ) × (s row.id ≡ some old) × (result ≡ ok 0) × (s' ≡ s)))
insert_into_law row s none e = inr (inl (e, refl, λ j. refl))
insert_into_law row s (some old) e = inr (inr (old, e, refl, refl))

abbrev table : Table pg
table = record {
  rows = λ s. s;
  insert_law = λ row s. insert_into_law row s (s row.id) refl;
  upsert_law = λ row s. inr (refl, λ j. refl);
  first_law = λ id now s. inr refl;
  delete_law = λ id s. inr (refl, λ j. refl);
  delete_before_law = λ now s. inr (refl, λ j. refl);
}

store : Unit {0}
unfolding encode save create_loop create load delete delete_expired str_ops
store = tt

abbrev empty : Rows
empty j = none

abbrev session : Session ℕ
session = record { id = codes "a"; content = 7; expiry_date = 100 }

abbrev one_row : Rows
one_row = with_row_at (codes "a") (some (1, 100)) empty

abbrev drawn_ids : ℕ → Text
drawn_ids n = codes "b"

-- The session's id is taken, so it gets the next one that is drawn.
draws_again :
    create pg 2 drawn_ids session one_row
    ≡ some (
      ok tt,
      (record session { id = codes "b" }, with_row_at (codes "b") (some (7, 100)) one_row),
    )
unfolding store
draws_again = refl

hides_expired : load pg (codes "a") 100 one_row ≡ ok none
unfolding store
hides_expired = refl

abbrev after_save : Rows
after_save = with_row_at (codes "a") (some (7, 100)) empty

abbrev after_sweep : Rows
after_sweep j = keep_if (λ row. not (ltb row.1 50)) (after_save j)

saved_then_swept : Run pg table 60 after_sweep (put pg (codes "a") (some (7, 100)) empty)
unfolding store
saved_then_swept =
    swept 50 after_save after_sweep (put pg (codes "a") (some (7, 100)) empty)
      (saved session 7 empty after_save empty (starts empty) refl refl) (omega arith) refl

load-refines_example :
    ((e : Text) × FailsToLoad pg table 60 (codes "a") after_sweep e
      × (load pg (codes "a") 60 after_sweep ≡ err (backend_error e)))
    ⊎ SessionOf pg table (codes "a") (some (7, 100)) (load pg (codes "a") 60 after_sweep)
unfolding store
load-refines_example =
    load-refines pg table 60 after_sweep (put pg (codes "a") (some (7, 100)) empty) (codes "a")
      saved_then_swept
