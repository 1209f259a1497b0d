-- ===== src/DieselSentry/Events.antt =====
-- `SentryInstrumentation` of crates/diesel-sentry/src/lib.rs: the spans in flight on a connection.
-- The scratch buffer `sql` is cleared before each use and only saves allocations, so it is no part
-- of the state. The key of a query's SQL is std's hash, a parameter, and so is whether anybody
-- listens to INFO spans.
pub mod InFlight
pub mod Matching
pub mod Nesting
mod Tests
use muxa.Prelude.{
  ℕ, ◌+◌, ◌-◌, Bool, true, false, Option, none, some, List, [], ◌∷◌, ◌++◌, eqb, leb, length,
  if◌then◌else◌,
}
use muxa.Prelude.Text.{Text, codes}
use muxa.DieselSentry.Sql.{Display, write_sql, operation, db_system, other_sql}

abbrev pub max_in_flight : ℕ
max_in_flight = 32

-- The fields that only a query's span has.
pub record QueryFields : Type 0 where
  pub db_statement : Text
  pub db_operation : Text
  pub db_transaction_depth : ℕ

pub record Span : Type 0 where
  pub name : Text
  pub sentry_op : Text
  pub sentry_name : Text
  pub db_system : Text
  pub query : Option QueryFields
  pub error : Option Text

pub record SentryInstrumentation : Type 0 where
  pub queries : List (ℕ × Span)
  pub connect : Option Span
  pub tx_depth : ℕ
  pub db_system : Option Text

abbrev pub new_instrumentation : SentryInstrumentation
new_instrumentation = record { queries = []; connect = none; tx_depth = 0; db_system = none }

abbrev pub or_other_sql : Option Text → Text
or_other_sql none = other_sql
or_other_sql (some system) = system

unfoldable pub with_db_system : Text → SentryInstrumentation → SentryInstrumentation
with_db_system system self = record self { db_system = some system }

-- `InstrumentationEvent`, with what the handler reads of each.
pub data InstrumentationEvent : Type 0 where
  start_establish_connection : (url : Text) → InstrumentationEvent
  finish_establish_connection : (error : Option Text) → InstrumentationEvent
  start_query : Display → InstrumentationEvent
  finish_query : Display → (error : Option Text) → InstrumentationEvent
  cache_query : (sql : Text) → InstrumentationEvent
  begin_transaction : (depth : ℕ) → InstrumentationEvent
  commit_transaction : (depth : ℕ) → InstrumentationEvent
  rollback_transaction : (depth : ℕ) → InstrumentationEvent

-- `record("error", …)` where there is an error.
abbrev pub recorded : Option Text → Span → Span
recorded none span = span
recorded (some err) span = record span { error = some err }

abbrev pub query_span : SentryInstrumentation → Text → Span
query_span self sql = record {
  name = codes "db.query";
  sentry_op = codes "db.sql.query";
  sentry_name = sql;
  db_system = or_other_sql self.db_system;
  query = some (record {
    db_statement = sql;
    db_operation = operation sql;
    db_transaction_depth = self.tx_depth;
  });
  error = none;
}

abbrev pub connect_span : Option Text → Span
connect_span system = record {
  name = codes "db.connect";
  sentry_op = codes "db.connect";
  sentry_name = codes "establish_connection";
  db_system = or_other_sql system;
  query = none;
  error = none;
}

-- What leaves the queue, and the rest.
abbrev pub Taken : Type 0
Taken = List Span × List (ℕ × Span)

abbrev pub pop_front : List (ℕ × Span) → Taken
pop_front [] = ([], [])
pop_front ((known, span) ∷ rest) = (span ∷ [], rest)

-- The oldest entry with the key leaves; without one the queue is left alone.
unfoldable pub remove_key : ℕ → List (ℕ × Span) → Taken
remove_key key [] = ([], [])
remove_key key ((known, span) ∷ rest) =
    let (found, others) = remove_key key rest in
    if eqb known key then (span ∷ [], rest) else (found, (known, span) ∷ others)

-- A full queue drops its oldest entry.
unfoldable pub make_room : List (ℕ × Span) → Taken
make_room queue = if eqb (length queue) max_in_flight then pop_front queue else ([], queue)

-- The only query in flight, or else the oldest start with the same SQL.
unfoldable pub take_finished : ℕ → List (ℕ × Span) → Taken
unfolding remove_key
take_finished key queue = if leb (length queue) 1 then pop_front queue else remove_key key queue

abbrev pub close_all : Option Text → List Span → List Span
close_all error [] = []
close_all error (span ∷ spans) = recorded error span ∷ close_all error spans

abbrev pub closed_of : Option Span → List Span
closed_of none = []
closed_of (some span) = span ∷ []

module _ (sql_key : Text → ℕ) (span_enabled : Bool) where
  -- The spans that an event closes, with the state that it leaves.
  unfoldable pub start : Display → SentryInstrumentation → List Span × SentryInstrumentation
  start query self =
      let sql = write_sql query in
      let room = make_room self.queries in
      if span_enabled
      then (room.0, record self { queries = room.1 ++ ((sql_key sql, query_span self sql) ∷ []) })
      else ([], self)

  unfoldable pub finish :
      Display → Option Text → SentryInstrumentation → List Span × SentryInstrumentation
  finish query error self =
      let found = take_finished (sql_key (write_sql query)) self.queries in
      (close_all error found.0, record self { queries = found.1 })

  unfoldable pub on_connection_event :
      InstrumentationEvent → SentryInstrumentation → List Span × SentryInstrumentation
  unfolding start finish
  on_connection_event (start_establish_connection url) self =
      let system = some (elim self.db_system [ none ↦ db_system url | some known ↦ known ]) in
      (
        closed_of self.connect,
        record self { db_system = system; connect = some (connect_span system) },
      )
  on_connection_event (finish_establish_connection error) self =
      (close_all error (closed_of self.connect), record self { connect = none })
  on_connection_event (start_query query) self = start query self
  on_connection_event (finish_query query error) self = finish query error self
  on_connection_event (cache_query sql) self = ([], self)
  on_connection_event (begin_transaction depth) self = ([], record self { tx_depth = depth })
  on_connection_event (commit_transaction depth) self = ([], record self { tx_depth = depth - 1 })
  on_connection_event (rollback_transaction depth) self = ([], record self { tx_depth = depth - 1 })

  -- A connection's events one after the other.
  unfoldable pub run :
      List InstrumentationEvent → SentryInstrumentation → List Span × SentryInstrumentation
  unfolding on_connection_event
  run [] self = ([], self)
  run (event ∷ events) self =
      let (closed, self') = on_connection_event event self in
      let (later, final) = run events self' in (closed ++ later, final)
