-- ===== src/Auth/Store.antt =====
-- crates/muxa-auth/src/store.rs: sessions in Postgres.
--
-- Parameters: the database with the queries that diesel sends, and serde_json. An id is the text that
-- it prints as, a time is a number; the clock's time is an argument, and so are the ids drawn.
pub mod Laws
pub mod Create
pub mod Refinement
mod Tests
use muxa.Prelude.{ℕ, zero, suc, eqb, Bool, Option, none, some, if◌then◌else◌}
use muxa.Prelude.Text.{Text}
use muxa.Prelude.Effects.{Result, ok, err}

pub data Error : Type 0 where
  encode_error decode_error backend_error : Text → Error

pub record Row (Value : Type 0) : Type 0 where
  pub id : Text
  pub content : Value
  pub expiry_date : ℕ

-- A `Record` of tower-sessions.
pub record Session (Data : Type 0) : Type 0 where
  pub id : Text
  pub content : Data
  pub expiry_date : ℕ

pub record Postgres : Type 1 where
  pub State : Type 0
  pub Data : Type 0
  pub Value : Type 0
  pub to_value : Data → Result Text Value
  pub from_value : Value → Result Text Data
  -- a connection of the pool
  pub get : State → Result Text Unit
  -- `ON CONFLICT DO NOTHING`: how many rows were inserted
  pub insert : Row Value → State → Result Text ℕ × State
  -- `ON CONFLICT (id) DO UPDATE`
  pub upsert : Row Value → State → Result Text Unit × State
  -- the row with the id that expires later than the time
  pub first : Text → (later_than : ℕ) → State → Result Text (Option (Value × ℕ))
  pub delete_id : Text → State → Result Text Unit × State
  -- the rows that expire earlier than the time
  pub delete_before : ℕ → State → Result Text Unit × State

module _ (pg : Postgres) where
  open pg use {State, Data, Value}

  -- `map_err(backend)`
  abbrev pub backend : {A : Type 0} → Result Text A → Result Error A
  backend (ok a) = ok a
  backend (err e) = err (backend_error e)

  abbrev pub encoded : Result Text Value → Result Error Value
  encoded (ok value) = ok value
  encoded (err e) = err (encode_error e)

  unfoldable pub encode : Session Data → Result Error Value
  encode session = encoded (pg.to_value session.content)

  abbrev pub row_of : Session Data → Value → Row Value
  row_of session value = record {
    id = session.id;
    content = value;
    expiry_date = session.expiry_date;
  }

  -- Encode, then take a connection; where either fails nothing is written.
  abbrev pub with_row :
      {A : Type 0} → Result Error Value → Result Error Unit → State → (Value → A) → (Error → A) → A
  with_row (err e) conn s go fail = fail e
  with_row (ok value) (err e) s go fail = fail e
  with_row (ok value) (ok _) s go fail = go value

  abbrev pub answered : {A : Type 0} → Result Text A × State → Result Error A × State
  answered (result, s) = (backend result, s)

  unfoldable pub save : Session Data → State → Result Error Unit × State
  unfolding encode
  save session s =
      with_row (encode session) (backend (pg.get s)) s
        (λ value. answered (pg.upsert (row_of session value) s)) (λ e. (err e, s))

  -- What `create` gives: a result with the session, whose id may have been drawn again.
  abbrev pub Created : Type 0
  Created = Result Error Unit × (Session Data × State)

  abbrev pub inserted_one : ℕ → Bool
  inserted_one n = eqb n 1

  -- One turn of the loop: what an insertion gave, and the rest of the loop, over the state left and
  -- the session with another id
  abbrev pub turn : Session Data → (State → Option Created) → Result Text ℕ × State → Option Created
  turn session rest (err e, s) = some (err (backend_error e), (session, s))
  turn session rest (ok inserted, s) =
      let again = rest s in if inserted_one inserted then some (ok tt, (session, s)) else again

  -- The loop, with the ids that are drawn and fuel: `none` where it runs out
  unfoldable pub create_loop :
      ℕ → (drawn : ℕ → Text) → Value → Session Data → State → Option Created
  create_loop zero drawn value session s = none
  create_loop (suc fuel) drawn value session s =
      turn session (create_loop fuel (λ n. drawn (suc n)) value (record session { id = drawn 0 }))
        (pg.insert (row_of session value) s)

  unfoldable pub create : ℕ → (drawn : ℕ → Text) → Session Data → State → Option Created
  unfolding encode create_loop
  create fuel drawn session s =
      with_row (encode session) (backend (pg.get s)) s
        (λ value. create_loop fuel drawn value session s) (λ e. some (err e, (session, s)))

  abbrev pub decoded : Text → ℕ → Result Text Data → Result Error (Option (Session Data))
  decoded id expires (err e) = err (decode_error e)
  decoded id expires (ok content) =
      ok (some (record { id = id; content = content; expiry_date = expires }))

  abbrev pub found : Text → Result Text (Option (Value × ℕ)) → Result Error (Option (Session Data))
  found id (err e) = err (backend_error e)
  found id (ok none) = ok none
  found id (ok (some (value, expires))) = decoded id expires (pg.from_value value)

  abbrev pub connected : {A : Type 0} → Result Text Unit → Result Error A → Result Error A
  connected (err e) result = err (backend_error e)
  connected (ok _) result = result

  unfoldable pub load : Text → (now : ℕ) → State → Result Error (Option (Session Data))
  load id now s = connected (pg.get s) (found id (pg.first id now s))

  abbrev pub connected_state :
      Result Text Unit → State → Result Text Unit × State → Result Error Unit × State
  connected_state (err e) s done = (err (backend_error e), s)
  connected_state (ok _) s done = answered done

  unfoldable pub delete : Text → State → Result Error Unit × State
  delete id s = connected_state (pg.get s) s (pg.delete_id id s)

  unfoldable pub delete_expired : (now : ℕ) → State → Result Error Unit × State
  delete_expired now s = connected_state (pg.get s) s (pg.delete_before now s)
