-- ===== src/DieselSentry/Events/Nesting.antt =====
-- crates/diesel-sentry/src/lib.rs: the transaction depth put on query spans.
use muxa.Prelude.{
  ℕ, suc, ◌≡◌, refl, ◌∙◌, Bool, true, false, List, [], ◌∷◌, Option, none, some, arith,
}
use muxa.Prelude.Text.{Text}
use muxa.DieselSentry.Sql.{Display}
use muxa.DieselSentry.Events.{
  QueryFields, query_span, SentryInstrumentation, new_instrumentation, InstrumentationEvent,
  start_establish_connection, finish_establish_connection, start_query, finish_query, cache_query,
  begin_transaction, commit_transaction, rollback_transaction, start, on_connection_event, run,
}

-- A connection as its user sees it: the number of transactions that are open in one another, and
-- what diesel reports of each step. It reports a transaction's own depth, 1 for the outermost, when
-- it begins and when it ends.
pub data Step : ℕ → InstrumentationEvent → ℕ → Type 0 where
  begins : {n : ℕ} → Step n (begin_transaction (suc n)) (suc n)
  commits : {n : ℕ} → Step (suc n) (commit_transaction (suc n)) n
  rolls_back : {n : ℕ} → Step (suc n) (rollback_transaction (suc n)) n
  connects : {n : ℕ} (url : Text) → Step n (start_establish_connection url) n
  connected : {n : ℕ} (error : Option Text) → Step n (finish_establish_connection error) n
  asks : {n : ℕ} (query : Display) → Step n (start_query query) n
  answers : {n : ℕ} (query : Display) (error : Option Text) → Step n (finish_query query error) n
  caches : {n : ℕ} (sql : Text) → Step n (cache_query sql) n

pub data Steps : ℕ → List InstrumentationEvent → ℕ → Type 0 where
  none_yet : {n : ℕ} → Steps n [] n
  then_steps :
      {l m n : ℕ} {event : InstrumentationEvent} {events : List InstrumentationEvent}
      → Step l event m
      → Steps m events n
      → Steps l (event ∷ events) n

start_depth :
    (sql_key : Text → ℕ) (enabled : Bool) (query : Display) (self : SentryInstrumentation)
    → (start sql_key enabled query self).1.tx_depth ≡ self.tx_depth
unfolding start
start_depth sql_key false query self = refl
start_depth sql_key true query self = refl

module _ (sql_key : Text → ℕ) (enabled : Bool) where
  simulates :
      {m n : ℕ} {event : InstrumentationEvent} (self : SentryInstrumentation)
      → Step m event n
      → self.tx_depth ≡ m
      → (on_connection_event sql_key enabled event self).1.tx_depth ≡ n
  unfolding on_connection_event
  simulates self begins h = refl
  simulates self commits h = omega arith
  simulates self rolls_back h = omega arith
  simulates self (connects url) h = h
  simulates self (connected error) h = h
  simulates self (asks query) h = start_depth sql_key enabled query self ∙ h
  simulates self (answers query error) h = h
  simulates self (caches sql) h = h

  simulates_all :
      {m n : ℕ} {events : List InstrumentationEvent} (self : SentryInstrumentation)
      → Steps m events n
      → self.tx_depth ≡ m
      → (run sql_key enabled events self).1.tx_depth ≡ n
  unfolding run
  simulates_all self none_yet h = h
  simulates_all self (then_steps step steps) h = simulates_all _ steps (simulates self step h)

-- The depth that a query's span reports.
abbrev pub reported : Option QueryFields → ℕ
reported none = 0
reported (some fields) = fields.db_transaction_depth

-- The instrumentation refines the count of open transactions: after any steps of a connection that
-- starts without one and now has `n` open in one another, `n` is the depth kept, and the depth that
-- the span of the next query reports.
pub run-Steps :
    (sql_key : Text → ℕ) (enabled : Bool) (events : List InstrumentationEvent) (n : ℕ) (sql : Text)
    → Steps 0 events n
    → let self = (run sql_key enabled events new_instrumentation).1 in
      (self.tx_depth ≡ n) × (reported (query_span self sql).query ≡ n)
run-Steps sql_key enabled events n sql steps =
    let depth = simulates_all sql_key enabled new_instrumentation steps refl in (depth, depth)
