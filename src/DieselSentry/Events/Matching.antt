-- ===== src/DieselSentry/Events/Matching.antt =====
-- crates/diesel-sentry/src/lib.rs: the span that a finished query closes.
use muxa.Prelude.{
  ℕ, ◌<◌, ◌≡◌, ◌≢◌, refl, ap, ◌∙◌, ◌⊎◌, inl, inr, Bool, true, false, Option, List, [], ◌∷◌, ◌++◌,
  arith, Bool-cases, eqb, leb, length, All,
}
use muxa.Prelude.Text.{Text}
use muxa.DieselSentry.Sql.{Display, write_sql}
use muxa.DieselSentry.Events.{
  max_in_flight, Span, SentryInstrumentation, recorded, query_span, make_room, remove_key,
  take_finished, close_all, start, finish,
}

-- `key` stands in the queue for the first time at `span`, between `before` and `after`.
abbrev pub FirstAt : ℕ → List (ℕ × Span) → List (ℕ × Span) → Span → List (ℕ × Span) → Type 0
FirstAt key queue before span after =
    (queue ≡ before ++ ((key, span) ∷ after)) × All (λ entry. entry.0 ≢ key) before

remove_key_cases :
    (key : ℕ) (queue : List (ℕ × Span))
    → (All (λ entry. entry.0 ≢ key) queue × (remove_key key queue ≡ ([], queue)))
      ⊎ ((before : List (ℕ × Span)) × (span : Span) × (after : List (ℕ × Span)) × FirstAt key queue
            before span after
          × (remove_key key queue ≡ (span ∷ [], before ++ after)))
unfolding remove_key
remove_key_cases key [] = inl (tt, refl)
remove_key_cases key ((known, span) ∷ rest) = elim (Bool-cases (eqb known key)) [
  | inl same ↦ inr ([], span, rest, (ap (λ k. (k, span) ∷ rest) (ground arith), tt), rw same refl)
  | inr other ↦ elim (remove_key_cases key rest) [
    | inl (absent, e) ↦ inl ((ground arith, absent), rw (other, e) refl)
    | inr (before, found, after, (split, none_before), e) ↦ inr (
      (known, span) ∷ before,
      found,
      after,
      (ap (λ queue. (known, span) ∷ queue) split, (ground arith, none_before)),
      rw (other, e) refl,
    )
  ]
]

-- What a finish takes: the only query in flight, or else the oldest start with the same key, the
-- others staying where they are, or else nothing.
abbrev pub Matches : ℕ → List (ℕ × Span) → List Span → List (ℕ × Span) → Type 0
Matches key queue found rest =
    ((queue ≡ []) × (found ≡ []) × (rest ≡ []))
    ⊎ (((entry : ℕ × Span) × (queue ≡ entry ∷ []) × (found ≡ entry.1 ∷ []) × (rest ≡ []))
        ⊎ ((1 < length queue)
            × ((All (λ entry. entry.0 ≢ key) queue × (found ≡ []) × (rest ≡ queue))
                ⊎ ((before : List (ℕ × Span)) × (span : Span) × (after : List (ℕ × Span)) × FirstAt
                      key queue before span after
                    × (found ≡ span ∷ [])
                    × (rest ≡ before ++ after)))))

take_finished_many :
    (key : ℕ) (queue : List (ℕ × Span))
    → 1 < length queue
    → take_finished key queue ≡ remove_key key queue
unfolding take_finished
take_finished_many key queue h = rw (test) refl
  where
    test : leb (length queue) 1 ≡ false
    test = ground arith

take_finished-Matches :
    (key : ℕ) (queue : List (ℕ × Span))
    → Matches key queue (take_finished key queue).0 (take_finished key queue).1
unfolding take_finished
take_finished-Matches key [] = inl (refl, refl, refl)
take_finished-Matches key (entry ∷ []) = inr (inl (entry, refl, refl, refl))
take_finished-Matches key (one ∷ (two ∷ rest)) =
    let queue = one ∷ (two ∷ rest) in
    let many = take_finished_many key queue (ground arith) in
    inr (
      inr (
        ground arith,
        elim (remove_key_cases key queue) [
          | inl (absent, e) ↦ inl (absent, ap (λ r. r.0) (many ∙ e), ap (λ r. r.1) (many ∙ e))
          | inr (before, span, after, first, e) ↦
              inr (before, span, after, first, ap (λ r. r.0) (many ∙ e), ap (λ r. r.1) (many ∙ e))
        ],
      ))

-- A finished query closes the only query in flight, or else the oldest one started with the same
-- key, and records its error there; without such a query nothing is closed and the queue stays. The
-- rest of the queue keeps its order, and nothing else of the state changes.
pub finish_cases :
    (sql_key : Text → ℕ) (enabled : Bool) (query : Display) (error : Option Text)
    (self : SentryInstrumentation)
    → (found : List Span) × (rest : List (ℕ × Span)) × Matches
        (sql_key (write_sql query))
        self.queries
        found
        rest
      × (finish sql_key enabled query error self
          ≡ (close_all error found, record self { queries = rest }))
unfolding finish
finish_cases sql_key enabled query error self =
    let key = sql_key (write_sql query) in
    (
      (take_finished key self.queries).0,
      (take_finished key self.queries).1,
      take_finished-Matches key self.queries,
      refl,
    )

make_room_space :
    (queue : List (ℕ × Span)) → length queue < max_in_flight → make_room queue ≡ ([], queue)
unfolding make_room
make_room_space queue h = rw space refl
  where
    space : eqb (length queue) max_in_flight ≡ false
    space = ground arith

remove_key-append :
    (key : ℕ) (queue : List (ℕ × Span)) (span : Span)
    → All (λ entry. entry.0 ≢ key) queue
    → remove_key key (queue ++ ((key, span) ∷ [])) ≡ (span ∷ [], queue)
unfolding remove_key
remove_key-append key [] span fresh = rw same refl
  where
    same : eqb key key ≡ true
    same = ground arith
remove_key-append key ((known, other) ∷ queue) span (differs, fresh) =
    rw (other_key, remove_key-append key queue span fresh) refl
  where
    other_key : eqb known key ≡ false
    other_key = ground arith

take_finished-append :
    (key : ℕ) (queue : List (ℕ × Span)) (span : Span)
    → All (λ entry. entry.0 ≢ key) queue
    → take_finished key (queue ++ ((key, span) ∷ [])) ≡ (span ∷ [], queue)
unfolding take_finished
take_finished-append key [] span fresh = refl
take_finished-append key (entry ∷ []) span fresh = remove_key-append key (entry ∷ []) span fresh
take_finished-append key (entry ∷ (entry' ∷ queue)) span fresh =
    take_finished_many key (entry ∷ (entry' ∷ (queue ++ ((key, span) ∷ [])))) (ground arith)
    ∙ remove_key-append key (entry ∷ (entry' ∷ queue)) span fresh

-- With less than 32 queries in flight, none of the same key, a query that is started and finished
-- leaves the instrumentation as it was, and closes exactly its own span, with the error that the
-- finish reports.
pub start-finish :
    (sql_key : Text → ℕ) (query : Display) (error : Option Text) (self : SentryInstrumentation)
    → length self.queries < max_in_flight
    → All (λ entry. entry.0 ≢ sql_key (write_sql query)) self.queries
    → finish sql_key true query error (start sql_key true query self).1
      ≡ (recorded error (query_span self (write_sql query)) ∷ [], self)
unfolding start finish
start-finish sql_key query error self h fresh =
    let entry : ℕ × Span = (sql_key (write_sql query), query_span self (write_sql query)) in
    ap
      (λ queue. (
        close_all error (take_finished (entry.0) queue).0,
        record self { queries = (take_finished (entry.0) queue).1 },
      ))
      (ap (λ room. room.1 ++ (entry ∷ [])) (make_room_space self.queries h))
    ∙ ap (λ found. (close_all error found.0, record self { queries = found.1 }))
        (take_finished-append entry.0 self.queries entry.1 fresh)
