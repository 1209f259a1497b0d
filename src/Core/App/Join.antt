-- ===== src/Core/App/Join.antt =====
-- `join_tasks` of crates/muxa-core/src/app.rs, against what becomes of each task by the deadline.
use muxa.Prelude.{
  ℕ, inl, inr, ◌+◌, ◌≤◌, ◌≡◌, Bool, true, false, not, List, [], ◌∷◌, ◌++◌, leb, if◌then◌else◌, max,
  arith, refl, ◌∙◌, ap, sym, Bool-cases,
}
use mathlib.Core.List.{append-nil, append_assoc}
use muxa.Prelude.Text.{Text}
use muxa.Core.App.{
  TaskEnd, TaskOutcomes, returns, panics, never, timeout_at, join_task, join_loop, join_tasks,
}

-- A task that panics no later than the deadline, and one that has not ended by then.
abbrev pub fails_by : ℕ → TaskEnd → Bool
fails_by deadline (returns t) = false
fails_by deadline (panics t) = leb t deadline
fails_by deadline never = false

abbrev pub runs_past : ℕ → TaskEnd → Bool
runs_past deadline (returns t) = not (leb t deadline)
runs_past deadline (panics t) = not (leb t deadline)
runs_past deadline never = true

-- The names, in order, of the tasks that end in a way.
abbrev pub named : (TaskEnd → Bool) → List (Text × TaskEnd) → List Text
named p [] = []
named p ((name, end) ∷ tasks) = let rest = named p tasks in if p end then name ∷ rest else rest

-- Outcomes with more names at their ends.
abbrev and_then : TaskOutcomes → List Text → List Text → TaskOutcomes
and_then o f a = record { failed = o.failed ++ f; abandoned = o.abandoned ++ a }

abbrev Joins : ℕ → List (Text × TaskEnd) → TaskOutcomes × ℕ → TaskOutcomes × ℕ → Type 0
Joins deadline tasks (o, now) (o', at) =
    (o'.failed ≡ o.failed ++ named (fails_by deadline) tasks)
    × (o'.abandoned ≡ o.abandoned ++ named (runs_past deadline) tasks)
    × now ≤ at
    × at ≤ deadline

join_task-Joins :
    (deadline : ℕ) (name : Text) (end : TaskEnd) (o : TaskOutcomes) (now : ℕ)
    → now ≤ deadline
    → Joins deadline ((name, end) ∷ []) (o, now) (join_task deadline (name, end) (o, now))
unfolding join_task timeout_at
join_task-Joins deadline name (returns t) o now h =
    let e : max now deadline ≡ deadline = omega (arith, h) in
    rw (e, join_task, timeout_at)
      (elim (Bool-cases (leb t deadline)) [
        | inl y ↦
            rw y
              (sym (append-nil o.failed), sym (append-nil o.abandoned), omega arith, ground arith)
        | inr n ↦ rw n (sym (append-nil o.failed), refl, h, omega arith)
      ])
join_task-Joins deadline name (panics t) o now h =
    let e : max now deadline ≡ deadline = omega (arith, h) in
    rw (e, join_task, timeout_at)
      (elim (Bool-cases (leb t deadline)) [
        | inl y ↦ rw y (refl, sym (append-nil o.abandoned), omega arith, ground arith)
        | inr n ↦ rw n (sym (append-nil o.failed), refl, h, omega arith)
      ])
join_task-Joins deadline name never o now h =
    let e : max now deadline ≡ deadline = omega (arith, h) in
    rw (e, join_task, timeout_at) (sym (append-nil o.failed), refl, h, omega arith)

-- The names of a task and of those after it.
named-cons :
    (p : TaskEnd → Bool) (name : Text) (end : TaskEnd) (tasks : List (Text × TaskEnd))
    → named p ((name, end) ∷ tasks) ≡ named p ((name, end) ∷ []) ++ named p tasks
named-cons p name end tasks = elim (Bool-cases (p end)) [ inl y ↦ rw y refl | inr n ↦ rw n refl ]

append_step :
    (p : TaskEnd → Bool) (name : Text) (end : TaskEnd) (tasks : List (Text × TaskEnd))
    (a b c : List Text)
    → b ≡ a ++ named p ((name, end) ∷ [])
    → c ≡ b ++ named p tasks
    → c ≡ a ++ named p ((name, end) ∷ tasks)
append_step p name end tasks a b c f g =
    g
    ∙ ap (λ l. l ++ named p tasks) f
    ∙ append_assoc a (named p ((name, end) ∷ [])) (named p tasks)
    ∙ ap (λ l. a ++ l) (sym (named-cons p name end tasks))

join_loop-Joins :
    (deadline : ℕ) (tasks : List (Text × TaskEnd)) (o : TaskOutcomes) (now : ℕ)
    → now ≤ deadline
    → Joins deadline tasks (o, now) (join_loop deadline tasks (o, now))
unfolding join_loop
join_loop-Joins deadline [] o now h =
    (sym (append-nil o.failed), sym (append-nil o.abandoned), omega arith, h)
join_loop-Joins deadline ((name, end) ∷ tasks) o now h =
    let (o₁, now₁) = join_task deadline (name, end) (o, now) in
    let (f, a, l, u) = join_task-Joins deadline name end o now h in
    let (f', a', l', u') = join_loop-Joins deadline tasks o₁ now₁ u in
    (
      append_step (fails_by deadline) name end tasks o.failed o₁.failed _ f f',
      append_step (runs_past deadline) name end tasks o.abandoned o₁.abandoned _ a a',
      omega (arith, l, l'),
      u',
    )

-- The tasks reported as failed are, in order, those that panic within ten seconds of the start of
-- the wait, or before it, whatever tasks are waited for before them; those reported as abandoned
-- are the ones that have not ended by then; and the wait as a whole takes at most ten seconds.
pub join_tasks_lem :
    (now : ℕ) (tasks : List (Text × TaskEnd))
    → let (outcomes, at) = join_tasks now tasks in
      (outcomes.failed ≡ named (fails_by (now + 10)) tasks)
      × (outcomes.abandoned ≡ named (runs_past (now + 10)) tasks)
      × now ≤ at
      × at ≤ now + 10
unfolding join_tasks
join_tasks_lem now tasks =
    join_loop-Joins (now + 10) tasks (record { failed = []; abandoned = [] }) now (omega arith)
