-- ===== src/Auth/Store/Laws.antt =====
-- What crates/muxa-auth/src/store.rs relies on of Postgres and serde_json.
use muxa.Prelude.{ℕ, ◌≡◌, ◌⊎◌, Option, none, some, not, ltb, if◌then◌else◌}
use muxa.Prelude.Text.{Text, ◌==◌}
use muxa.Prelude.Effects.{Result, ok, err}
use muxa.Prelude.Assoc.{keep_if}
use muxa.Auth.Store.{Postgres, Row}

module _ (pg : Postgres) where
  open pg use {State, Value}

  -- One id's row is replaced, and all others stay.
  abbrev pub Updated :
      (State → Text → Option (Value × ℕ)) → Text → Option (Value × ℕ) → State → State → Type 0
  Updated rows id row s s' = (j : Text) → rows s' j ≡ (if id == j then row else rows s j)

  -- A statement that fails changes nothing.
  abbrev pub Failed : {A : Type 0} → State → Result Text A × State → Type 0
  Failed s (result, s') = (e : Text) × (result ≡ err e) × (s' ≡ s)

  -- The table: for each id at most one row, with its data and its expiry date.
  pub record Table : Type 0 where
    pub rows : State → Text → Option (Value × ℕ)
    pub insert_law :
        (row : Row Value) (s : State)
        → let (result, s') = pg.insert row s in
          Failed s (result, s')
          ⊎ (((rows s row.id ≡ none)
                × (result ≡ ok 1)
                × Updated rows row.id (some (row.content, row.expiry_date)) s s')
              ⊎ ((old : Value × ℕ) × (rows s row.id ≡ some old) × (result ≡ ok 0) × (s' ≡ s)))
    pub upsert_law :
        (row : Row Value) (s : State)
        → let (result, s') = pg.upsert row s in
          Failed s (result, s')
          ⊎ ((result ≡ ok tt) × Updated rows row.id (some (row.content, row.expiry_date)) s s')
    pub first_law :
        (id : Text) (now : ℕ) (s : State)
        → ((e : Text) × (pg.first id now s ≡ err e))
          ⊎ (pg.first id now s ≡ ok (keep_if (λ row. ltb now row.1) (rows s id)))
    pub delete_law :
        (id : Text) (s : State)
        → let (result, s') = pg.delete_id id s in
          Failed s (result, s') ⊎ ((result ≡ ok tt) × Updated rows id none s s')
    pub delete_before_law :
        (now : ℕ) (s : State)
        → let (result, s') = pg.delete_before now s in
          Failed s (result, s')
          ⊎ ((result ≡ ok tt)
              × ((j : Text) → rows s' j ≡ keep_if (λ row. not (ltb row.1 now)) (rows s j)))
