-- ===== src/DieselSentry/Events/Tests.antt =====
-- Runs of events on a connection: the unit tests of crates/diesel-sentry/src/lib.rs.
use muxa.Prelude.{Bool, ℕ, ◌+◌, ◌≤◌, ◌≡◌, refl, true, some, none, List, [], ◌∷◌, arith, length}
use muxa.Prelude.Text.{
  ◌==◌, Text, codes, str_ops, trim_end, trim_start, to_upper, split_once, eq_ignore_ascii_case,
}
use muxa.DieselSentry.Sql.{
  Display, ends, writes, split_at, before_first, write_str, render, write_sql, first_word,
  operation, db_system,
}
use muxa.DieselSentry.Events.{
  Span, SentryInstrumentation, new_instrumentation, InstrumentationEvent,
  start_establish_connection, start_query, finish_query, begin_transaction, commit_transaction,
  recorded, query_span, make_room, take_finished, remove_key, close_all, start, finish,
  on_connection_event, run,
}
use muxa.DieselSentry.Events.InFlight.{count, in_flight, all_opened, run-bounded}
use muxa.DieselSentry.Events.Matching.{Matches, finish_cases, start-finish}
use muxa.DieselSentry.Events.Nesting.{
  Steps, begins, asks, commits, connects, none_yet, then_steps, reported, run-Steps,
}

events_run : Unit {0}
unfolding split_at before_first write_str render write_sql first_word operation db_system trim_end
    trim_start to_upper split_once eq_ignore_ascii_case make_room take_finished remove_key start
    finish on_connection_event run str_ops
events_run = tt

-- A hash that tells the two queries below apart.
abbrev key_of : Text → ℕ
key_of sql = length sql

abbrev ask : Display
ask = writes (codes "SELECT 1") (λ accepted. ends accepted)

abbrev update : Display
update = writes (codes "UPDATE users -- binds: [1]") (λ accepted. ends accepted)

abbrev events : List InstrumentationEvent
events =
    start_establish_connection (codes "postgres://h/db")
    ∷ begin_transaction 1
    ∷ start_query ask
    ∷ start_query update
    ∷ finish_query ask (some (codes "gone"))
    ∷ commit_transaction 1
    ∷ []

abbrev in_transaction : SentryInstrumentation
in_transaction = record {
  queries = [];
  connect = none;
  tx_depth = 1;
  db_system = some (codes "postgresql");
}

-- Of two queries in flight the finished one is closed, with its error and the depth it started at.
closes_matching :
    (run key_of true events new_instrumentation).0
    ≡ recorded (some (codes "gone")) (query_span in_transaction (codes "SELECT 1")) ∷ []
unfolding events_run
closes_matching = refl

-- The spans of one statement.
abbrev is_update : Span → Bool
is_update span = span.sentry_name == codes "UPDATE users"

run-bounded_example :
    let (closed, self) = run key_of true events new_instrumentation in
    (length self.queries ≤ 32)
    × (count is_update closed + count is_update (in_flight self)
        ≡ count is_update (all_opened key_of true events new_instrumentation))
run-bounded_example = run-bounded key_of true events is_update

finish_cases_example :
    (found : List Span) × (rest : List (ℕ × Span)) × Matches
      (key_of (write_sql ask))
      in_transaction.queries
      found
      rest
    × (finish key_of true ask none in_transaction
        ≡ (close_all none found, record in_transaction { queries = rest }))
finish_cases_example = finish_cases key_of true ask none in_transaction

start-finish_example :
    finish key_of true update none (start key_of true update in_transaction).1
    ≡ (query_span in_transaction (codes "UPDATE users") ∷ [], in_transaction)
unfolding events_run
start-finish_example = start-finish key_of update none in_transaction (omega arith) tt

abbrev steps : List InstrumentationEvent
steps =
    start_establish_connection (codes "postgres://h/db")
    ∷ begin_transaction 1
    ∷ begin_transaction 2
    ∷ start_query ask
    ∷ commit_transaction 2
    ∷ []

abbrev nested : Steps 0 steps 1
nested =
    then_steps (connects (codes "postgres://h/db"))
      (then_steps begins (then_steps begins (then_steps (asks ask) (then_steps commits none_yet))))

run-Steps_example :
    let self = (run key_of true steps new_instrumentation).1 in
    (self.tx_depth ≡ 1) × (reported (query_span self (codes "SELECT 1")).query ≡ 1)
run-Steps_example = run-Steps key_of true steps 1 (codes "SELECT 1") nested
