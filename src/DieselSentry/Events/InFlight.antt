-- ===== src/DieselSentry/Events/InFlight.antt =====
-- crates/diesel-sentry/src/lib.rs: no span is lost, and few are kept.
use muxa.Prelude.{
  ℕ, ◌+◌, ◌≤◌, ◌<◌, ◌≡◌, refl, inl, inr, Bool, true, false, Option, none, some, List, [], ◌∷◌, ◌++◌,
  arith, Bool-cases, eqb, leb, length, length-append, if◌then◌else◌,
}
use muxa.Prelude.Text.{Text}
use muxa.DieselSentry.Sql.{Display, write_sql, db_system}
use muxa.DieselSentry.Events.{
  max_in_flight, Span, SentryInstrumentation, new_instrumentation, InstrumentationEvent,
  start_establish_connection, finish_establish_connection, start_query, finish_query, cache_query,
  connect_span, begin_transaction, commit_transaction, rollback_transaction, query_span, pop_front,
  make_room, take_finished, remove_key, close_all, closed_of, start, finish, on_connection_event,
  run,
}

-- The spans that an event opens.
abbrev pub opened : Bool → InstrumentationEvent → SentryInstrumentation → List Span
opened enabled (start_establish_connection url) self =
    connect_span (some (elim self.db_system [ none ↦ db_system url | some known ↦ known ])) ∷ []
opened enabled (finish_establish_connection error) self = []
opened enabled (start_query query) self =
    if enabled then query_span self (write_sql query) ∷ [] else []
opened enabled (finish_query query error) self = []
opened enabled (cache_query sql) self = []
opened enabled (begin_transaction depth) self = []
opened enabled (commit_transaction depth) self = []
opened enabled (rollback_transaction depth) self = []

abbrev pub all_opened :
    (Text → ℕ) → Bool → List InstrumentationEvent → SentryInstrumentation → List Span
all_opened sql_key enabled [] self = []
all_opened sql_key enabled (event ∷ events) self =
    opened enabled event self
    ++ all_opened sql_key enabled events (on_connection_event sql_key enabled event self).1

-- A span as it was opened.
abbrev pub without_error : Span → Span
without_error span = record span { error = none }

-- How many of the spans, as they were opened, the test picks out.
abbrev pub count : (Span → Bool) → List Span → ℕ
count p [] = 0
count p (span ∷ spans) = (if p (without_error span) then 1 else 0) + count p spans

abbrev pub spans_of : List (ℕ × Span) → List Span
spans_of [] = []
spans_of ((known, span) ∷ rest) = span ∷ spans_of rest

abbrev pub in_flight : SentryInstrumentation → List Span
in_flight self = spans_of self.queries ++ closed_of self.connect

module _ (p : Span → Bool) where
  count-append : (a b : List Span) → count p (a ++ b) ≡ count p a + count p b
  count-append [] b = omega arith
  count-append (span ∷ a) b = omega (arith, count-append a b)

  count-spans_append :
      (queue : List (ℕ × Span)) (known : ℕ) (span : Span)
      → count p (spans_of (queue ++ (known, span) ∷ []))
        ≡ count p (spans_of queue) + count p (span ∷ [])
  count-spans_append [] known span = omega arith
  count-spans_append ((k, s) ∷ queue) known span =
      omega (arith, count-spans_append queue known span)

  count-remove_key :
      (key : ℕ) (queue : List (ℕ × Span))
      → count p (remove_key key queue).0 + count p (spans_of (remove_key key queue).1)
        ≡ count p (spans_of queue)
  unfolding remove_key
  count-remove_key key [] = refl
  count-remove_key key ((known, span) ∷ rest) = elim (Bool-cases (eqb known key)) [
    | inl same ↦ rw same (omega arith)
    | inr other ↦ rw other (omega (arith, count-remove_key key rest))
  ]

  count-pop_front :
      (queue : List (ℕ × Span))
      → count p (pop_front queue).0 + count p (spans_of (pop_front queue).1)
        ≡ count p (spans_of queue)
  count-pop_front [] = refl
  count-pop_front ((known, span) ∷ rest) = omega arith

  count-make_room :
      (queue : List (ℕ × Span))
      → count p (make_room queue).0 + count p (spans_of (make_room queue).1)
        ≡ count p (spans_of queue)
  unfolding make_room
  count-make_room queue = elim (Bool-cases (eqb (length queue) max_in_flight)) [
    | inl full ↦ rw full (count-pop_front queue)
    | inr space ↦ rw space (omega arith)
  ]

  count-take_finished :
      (key : ℕ) (queue : List (ℕ × Span))
      → count p (take_finished key queue).0 + count p (spans_of (take_finished key queue).1)
        ≡ count p (spans_of queue)
  unfolding take_finished
  count-take_finished key queue = elim (Bool-cases (leb (length queue) 1)) [
    | inl single ↦ rw single (count-pop_front queue)
    | inr many ↦ rw many (count-remove_key key queue)
  ]

  count-close_all :
      (error : Option Text) (spans : List Span) → count p (close_all error spans) ≡ count p spans
  count-close_all error [] = refl
  count-close_all none (span ∷ spans) = omega (arith, count-close_all none spans)
  count-close_all (some e) (span ∷ spans) = omega (arith, count-close_all (some e) spans)

length-remove_key :
    (key : ℕ) (queue : List (ℕ × Span))
    → length (remove_key key queue).0 + length (remove_key key queue).1 ≡ length queue
unfolding remove_key
length-remove_key key [] = refl
length-remove_key key ((known, span) ∷ rest) = ground (arith, length-remove_key key rest)

length-pop_front :
    (queue : List (ℕ × Span))
    → length (pop_front queue).0 + length (pop_front queue).1 ≡ length queue
length-pop_front [] = refl
length-pop_front (entry ∷ rest) = omega arith

length-make_room :
    (queue : List (ℕ × Span))
    → (length (make_room queue).0 + length (make_room queue).1 ≡ length queue)
      × (length queue ≤ max_in_flight → length (make_room queue).1 < max_in_flight)
unfolding make_room
length-make_room queue = elim (Bool-cases (eqb (length queue) max_in_flight)) [
  | inl full ↦ rw full (length-pop_front queue, λ h. ground (arith, length-pop_front queue))
  | inr space ↦ rw space (omega arith, λ h. ground arith)
]

length-take_finished :
    (key : ℕ) (queue : List (ℕ × Span))
    → length (take_finished key queue).0 + length (take_finished key queue).1 ≡ length queue
unfolding take_finished
length-take_finished key queue = elim (Bool-cases (leb (length queue) 1)) [
  | inl single ↦ rw single (length-pop_front queue)
  | inr many ↦ rw many (length-remove_key key queue)
]

-- What an event does to the spans: those it closes and those in flight after it are those in flight
-- before it and those it opens, and the queue stays within its bound.
abbrev Balanced :
    (Span → Bool) → List Span → SentryInstrumentation → List Span × SentryInstrumentation → Type 0
Balanced p new self (closed, self') =
    (count p closed + count p (in_flight self') ≡ count p new + count p (in_flight self))
    × (length self.queries ≤ max_in_flight → length self'.queries ≤ max_in_flight)

module _ (sql_key : Text → ℕ) (p : Span → Bool) where
  -- The spans in flight are counted in the queue and at the connection.
  parts :
      (self : SentryInstrumentation)
      → count p (in_flight self)
        ≡ count p (spans_of self.queries) + count p (closed_of self.connect)
  parts self = count-append p (spans_of self.queries) (closed_of self.connect)

  start-Balanced :
      (enabled : Bool) (query : Display) (self : SentryInstrumentation)
      → Balanced p
          (if enabled then query_span self (write_sql query) ∷ [] else [])
          self
          (start sql_key enabled query self)
  unfolding start
  start-Balanced false query self = (omega arith, λ h. h)
  start-Balanced true query self =
      let (kept, room) = length-make_room self.queries in
      let known = sql_key (write_sql query) in
      let span = query_span self (write_sql query) in
      let more = length-append (make_room self.queries).1 ((known, span) ∷ []) in
      let after : SentryInstrumentation = record self {
        queries = (make_room self.queries).1 ++ (known, span) ∷ [];
      } in
      (
        omega (
          arith,
          parts self,
          parts after,
          count-make_room p self.queries,
          count-spans_append p (make_room self.queries).1 known span,
        ),
        λ h. omega (arith, room h, more),
      )

  finish-Balanced :
      (enabled : Bool) (query : Display) (error : Option Text) (self : SentryInstrumentation)
      → Balanced p [] self (finish sql_key enabled query error self)
  unfolding finish
  finish-Balanced enabled query error self =
      let found = take_finished (sql_key (write_sql query)) self.queries in
      let after : SentryInstrumentation = record self { queries = found.1 } in
      (
        omega (
          arith,
          parts self,
          parts after,
          count-take_finished p (sql_key (write_sql query)) self.queries,
          count-close_all p error found.0,
        ),
        λ h. omega (arith, length-take_finished (sql_key (write_sql query)) self.queries, h),
      )

  on_connection_event-Balanced :
      (enabled : Bool) (event : InstrumentationEvent) (self : SentryInstrumentation)
      → Balanced p (opened enabled event self) self (on_connection_event sql_key enabled event self)
  unfolding on_connection_event
  on_connection_event-Balanced enabled (start_establish_connection url) self =
      let after = (on_connection_event sql_key enabled (start_establish_connection url) self).1 in
      (omega (arith, parts self, parts after), λ h. h)
  on_connection_event-Balanced enabled (finish_establish_connection error) self =
      let after : SentryInstrumentation = record self { connect = none } in
      (
        omega (arith, parts self, parts after, count-close_all p error (closed_of self.connect)),
        λ h. h,
      )
  on_connection_event-Balanced enabled (start_query query) self = start-Balanced enabled query self
  on_connection_event-Balanced enabled (finish_query query error) self =
      finish-Balanced enabled query error self
  on_connection_event-Balanced enabled (cache_query sql) self = (omega arith, λ h. h)
  on_connection_event-Balanced enabled (begin_transaction depth) self = (omega arith, λ h. h)
  on_connection_event-Balanced enabled (commit_transaction depth) self = (omega arith, λ h. h)
  on_connection_event-Balanced enabled (rollback_transaction depth) self = (omega arith, λ h. h)

  run-Balanced :
      (enabled : Bool) (events : List InstrumentationEvent) (self : SentryInstrumentation)
      → Balanced p (all_opened sql_key enabled events self) self (run sql_key enabled events self)
  unfolding run
  run-Balanced enabled [] self = (omega arith, λ h. h)
  run-Balanced enabled (event ∷ events) self =
      let (one, kept) = on_connection_event-Balanced enabled event self in
      let self' = (on_connection_event sql_key enabled event self).1 in
      let (rest, kept') = run-Balanced enabled events self' in
      let more =
        count-append p (on_connection_event sql_key enabled event self).0
          (run sql_key enabled events self').0 in
      let all =
        count-append p (opened enabled event self) (all_opened sql_key enabled events self') in
      (omega (arith, one, rest, more, all), λ h. kept' (kept h))

-- Over any run of events from a new instrumentation, at most 32 query spans are in flight, and no
-- span is lost or closed twice: the spans closed and those in flight, of queries and of the
-- connection, are together those that the events have opened, each as often, whatever test of the
-- span as it was opened tells the spans apart.
pub run-bounded :
    (sql_key : Text → ℕ) (enabled : Bool) (events : List InstrumentationEvent) (p : Span → Bool)
    → let (closed, self) = run sql_key enabled events new_instrumentation in
      (length self.queries ≤ 32)
      × (count p closed + count p (in_flight self)
          ≡ count p (all_opened sql_key enabled events new_instrumentation))
run-bounded sql_key enabled events p =
    let (balance, bound) = run-Balanced sql_key p enabled events new_instrumentation in
    (bound (omega arith), omega (arith, balance))
