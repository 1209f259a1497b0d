-- ===== src/Auth/Store/Create.antt =====
-- `create` of crates/muxa-auth/src/store.rs: it ends, and overwrites no session.
use muxa.Prelude.{ℕ, zero, suc, ◌≡◌, ◌⊎◌, Option, none, some}
use muxa.Prelude.Text.{Text}
use muxa.Prelude.Effects.{ok, err}
use muxa.Auth.Store.{Postgres, Row, encode_error, backend_error, Session, Created, create_loop}
use muxa.Auth.Store.Laws.{Updated, Table}

-- The ids that `create` tries: the session's own, then those drawn.
abbrev pub tried : Text → (ℕ → Text) → ℕ → Text
tried own drawn zero = own
tried own drawn (suc n) = drawn n

module _ (pg : Postgres) (t : Table pg) where
  open pg use {State, Data, Value}

  -- The row that is tried n-th.
  abbrev pub row_tried : (ℕ → Text) → Value → Session Data → ℕ → Row Value
  row_tried drawn value session n = record {
    id = tried session.id drawn n;
    content = value;
    expiry_date = session.expiry_date;
  }

  -- The insertions before the n-th found their ids taken.
  abbrev pub Skipped : (ℕ → Text) → Value → Session Data → State → ℕ → Type 0
  Skipped drawn value session s zero = Unit
  Skipped drawn value session s (suc n) =
      ((pg.insert (row_tried drawn value session n) s).0 ≡ ok 0) × Skipped drawn value session s n

  -- The insertion of a row that is tried fails and the table stays as it was, or the session stands under the first id tried
  -- that no session had, and all other sessions are as they were.
  abbrev pub CreatedBy : (ℕ → Text) → Value → Session Data → State → Created pg → Type 0
  CreatedBy drawn value session s (result, (session', s')) =
      ((n : ℕ) × (e : Text) × Skipped drawn value session s n
        × ((pg.insert (row_tried drawn value session n) s).0 ≡ err e)
        × (result ≡ err (backend_error e))
        × (s' ≡ s))
      ⊎ ((n : ℕ) × Skipped drawn value session s n
          × (result ≡ ok tt)
          × (session' ≡ record session { id = tried session.id drawn n })
          × (t.rows s (tried session.id drawn n) ≡ none)
          × Updated pg t.rows (tried session.id drawn n) (some (value, session.expiry_date)) s s')

  abbrev pub Made : (ℕ → Text) → Value → Session Data → State → Option (Created pg) → Type 0
  Made drawn value session s result =
      (made : Created pg) × (result ≡ some made) × CreatedBy drawn value session s made

  -- The rest of the loop.
  abbrev rest : ℕ → (ℕ → Text) → Value → Session Data → State → Option (Created pg)
  rest fuel drawn value session =
      create_loop pg fuel (λ n. drawn (suc n)) value (record session { id = drawn 0 })

  -- Encoding or the pool fails, and nothing has happened.
  abbrev pub FailsFirst : Session Data → State → Option (Created pg) → Type 0
  FailsFirst session s made =
      ((e : Text) × (pg.to_value session.content ≡ err e)
        × (made ≡ some (err (encode_error e), (session, s))))
      ⊎ ((e : Text) × (pg.get s ≡ err e) × (made ≡ some (err (backend_error e), (session, s))))
