-- ===== src/Core/App.antt =====
-- crates/muxa-core/src/app.rs: `with_plugin`, `run` and `join_tasks`; the error type of
-- crates/muxa-core/src/error.rs; and `TaskRegistry` and `set_serve_fn` of
-- crates/muxa-core/src/ctx.rs.
--
-- Time is in seconds. A spawned task is what becomes of it: when it ends and how, or that it does
-- not. What tokio does outside these functions takes no time. The serve function is its result; the
-- calls that `run` makes are recorded in order.
pub mod Join
pub mod Run
mod Tests
use muxa.Prelude.{
  ℕ, ◌+◌, ◌≤◌, Bool, true, false, Option, none, some, List, [], ◌∷◌, ◌++◌, map, length, leb,
  if◌then◌else◌, max,
}
use muxa.Prelude.Text.{Text, codes, is_some}
use muxa.Prelude.Effects.{Result, ok, err}

-- crates/muxa-core/src/error.rs; the boxed sources are errors again, or texts.
pub data Error : Type 0 where
  plugin_build : (plugin : Text) → (source : Error) → Error
  config : Text → Error
  io : Text → Error
  other : Text → Error

-- What `map_err` in `with_plugin` makes of a failed `build`.
abbrev pub wrap : Text → Error → Error
wrap plugin (plugin_build inner source) = plugin_build inner source
wrap plugin (config e) = plugin_build plugin (config e)
wrap plugin (io e) = plugin_build plugin (io e)
wrap plugin (other e) = plugin_build plugin (other e)

-- A plugin over the state `S` and the build context `C`: its configuration is read first, and
-- `build` has the configuration, the state and the context.
pub record Plugin (S C : Type 0) : Type 1 where
  pub name : Text
  pub Config : Type 0
  pub Output : Type 0
  pub read_config : C → Result Error Config
  pub build : Config → S → C → Result Error Output × C

-- `with_plugin`. The builder is consumed: where it fails only the error is left.
module _ {S C : Type 0} (p : Plugin S C) where
  abbrev pub pushed : S → Result Error p.Output × C → Result Error ((p.Output × S) × C)
  pushed state (ok out, ctx) = ok ((out, state), ctx)
  pushed state (err e, ctx) = err (wrap p.name e)

  unfoldable pub with_plugin : S × C → Result Error ((p.Output × S) × C)
  with_plugin (state, ctx) = elim (p.read_config ctx) [
    | err e ↦ err e
    | ok cfg ↦ pushed state (p.build cfg state ctx)
  ]

-- How a spawned task ends: it returns or panics at a time, or never ends.
pub data TaskEnd : Type 0 where
  returns : ℕ → TaskEnd
  panics : ℕ → TaskEnd
  never : TaskEnd

-- `TASK_SHUTDOWN_GRACE`
abbrev pub task_shutdown_grace : ℕ
task_shutdown_grace = 10

pub record TaskOutcomes : Type 0 where
  pub failed : List Text
  pub abandoned : List Text

-- `timeout_at(deadline, handle)` at `now`: a handle that is ready is polled before the timer.
pub data Poll : Type 0 where
  done : (at : ℕ) → Poll
  failure : (at : ℕ) → Poll
  elapsed : (at : ℕ) → Poll

unfoldable pub timeout_at : ℕ → ℕ → TaskEnd → Poll
timeout_at deadline now (returns t) =
    if leb t (max now deadline) then done (max now t) else elapsed (max now deadline)
timeout_at deadline now (panics t) =
    if leb t (max now deadline) then failure (max now t) else elapsed (max now deadline)
timeout_at deadline now never = elapsed (max now deadline)

-- One round of the loop: the outcomes so far, and the time.
unfoldable pub join_task : ℕ → Text × TaskEnd → TaskOutcomes × ℕ → TaskOutcomes × ℕ
unfolding timeout_at
join_task deadline (name, handle) (outcomes, now) = elim (timeout_at deadline now handle) [
  | done t ↦ (outcomes, t)
  | failure t ↦ (record outcomes { failed = outcomes.failed ++ name ∷ [] }, t)
  | elapsed t ↦ (record outcomes { abandoned = outcomes.abandoned ++ name ∷ [] }, t)
]

unfoldable pub join_loop : ℕ → List (Text × TaskEnd) → TaskOutcomes × ℕ → TaskOutcomes × ℕ
unfolding join_task
join_loop deadline [] s = s
join_loop deadline (task ∷ tasks) s = join_loop deadline tasks (join_task deadline task s)

-- The outcomes, and the time when the wait is over.
unfoldable pub join_tasks : ℕ → List (Text × TaskEnd) → TaskOutcomes × ℕ
unfolding join_loop
join_tasks now tasks =
    join_loop (now + task_shutdown_grace) tasks (record { failed = []; abandoned = [] }, now)

-- A registered task: spawned with a child of the shutdown token, whose parent is cancelled at the
-- given time, it ends in some way.
abbrev pub SpawnTask : Type 0
SpawnTask = ℕ → TaskEnd

abbrev pub TaskRegistry : Type 0
TaskRegistry = List (Text × SpawnTask)

pub spawn : Text → SpawnTask → TaskRegistry → TaskRegistry
spawn name func tasks = tasks ++ (name, func) ∷ []

pub names : TaskRegistry → List Text
names tasks = map (λ (t : Text × SpawnTask). t.0) tasks

unfoldable pub spawn_all : ℕ → TaskRegistry → List (Text × TaskEnd)
spawn_all cancelled_at [] = []
spawn_all cancelled_at ((name, func) ∷ tasks) =
    (name, func cancelled_at) ∷ spawn_all cancelled_at tasks

abbrev pub already_registered : Error
already_registered = other (codes "another plugin already registered a serve_fn")

abbrev pub no_serve : Error
no_serve = other (
    codes
      "no serve function registered — add a serving plugin (e.g. a web plugin) as the last plugin in the chain")

module _ (Router : Type 0) where
  -- The serve function: when it is over, and with what result.
  abbrev pub ServeFn : Type 0
  ServeFn = Router → Result Error Unit × ℕ

  pub record BuildCtx : Type 0 where
    pub tasks : TaskRegistry
    pub router : Router
    pub serve_fn : Option ServeFn

  unfoldable pub set_serve_fn : ServeFn → BuildCtx → Result Error Unit × BuildCtx
  set_serve_fn serve ctx =
      if is_some ctx.serve_fn
      then (err already_registered, ctx)
      else (ok tt, record ctx { serve_fn = some serve })

  -- The calls that `run` makes, in order.
  pub data Call : Type 0 where
    spawned : List Text → Call
    served : Router → Call
    cancelled : (at : ℕ) → Call
    joined : TaskOutcomes → (at : ℕ) → Call

  -- `router` is the composed one.
  unfoldable pub run : BuildCtx → Result Error Unit × List Call
  unfolding spawn_all join_tasks names
  run ctx = elim ctx.serve_fn [
    | none ↦ (err no_serve, [])
    | some serve ↦
        let (result, over) = serve ctx.router in
        let (outcomes, at) = join_tasks over (spawn_all over ctx.tasks) in
        (
          result,
          spawned (names ctx.tasks) ∷ served ctx.router ∷ cancelled over ∷ joined outcomes at ∷ [],
        )
  ]
