-- ===== src/Core/App/Tests.antt =====
-- Apps with a few tasks; the unit tests of crates/muxa-core/src/app.rs.
use muxa.Prelude.{ℕ, ◌+◌, ◌≤◌, ◌≡◌, refl, ◌⊎◌, none, some, List, [], ◌∷◌}
use muxa.Prelude.Text.{Text, codes}
use muxa.Prelude.Effects.{ok, err}
use muxa.Core.App.{
  Error, Plugin, with_plugin, returns, panics, never, TaskEnd, TaskRegistry, join_tasks, ServeFn,
  BuildCtx, set_serve_fn, run,
}
use muxa.Core.App.Join.{named, fails_by, runs_past, join_tasks_lem}
use muxa.Core.App.Run.{with_plugin_cases, Reports}

-- One task hangs, one panics, one returns.
abbrev tasks : List (Text × TaskEnd)
tasks =
    (codes "hangs", never)
    ∷ (codes "fails", panics 3)
    ∷ (codes "returns", returns 0)
    ∷ (codes "late", panics 40)
    ∷ []

apps : Unit {0}
unfolding join_tasks run set_serve_fn with_plugin
apps = tt

join_tasks_tests :
    join_tasks 2 tasks
    ≡ (record { failed = codes "fails" ∷ []; abandoned = codes "hangs" ∷ codes "late" ∷ [] }, 12)
unfolding apps
join_tasks_tests = refl

join_tasks_lem_example :
    ((join_tasks 2 tasks).0.failed ≡ named (fails_by 12) tasks)
    × ((join_tasks 2 tasks).0.abandoned ≡ named (runs_past 12) tasks)
    × 2 ≤ (join_tasks 2 tasks).1
    × (join_tasks 2 tasks).1 ≤ 12
join_tasks_lem_example = join_tasks_lem 2 tasks

-- A task that returns a second after it is told to stop, and one that panics before.
abbrev flush : TaskRegistry
flush =
    (codes "flush", λ cancelled_at. returns (cancelled_at + 1))
    ∷ (codes "poll", λ cancelled_at. panics 1)
    ∷ []

-- Serving ends after the given time.
abbrev serve_for : ℕ → ServeFn Text
serve_for n router = (ok tt, n)

abbrev app : BuildCtx Text
app = record { tasks = flush; router = codes "routes"; serve_fn = some (serve_for 60) }

abbrev bare : BuildCtx Text
bare = record { tasks = flush; router = codes "routes"; serve_fn = none }

-- A plugin that counts its builds in the context.
abbrev counter : Plugin Unit ℕ
counter = record {
  name = codes "counter";
  Config = Unit;
  Output = ℕ;
  read_config = λ ctx. ok tt;
  build = λ cfg state ctx. (ok 42, ctx + 1);
}

with_plugin_tests : with_plugin counter (tt, 0) ≡ ok ((42, tt), 1)
unfolding apps
with_plugin_tests = refl

with_plugin_cases_example :
    ((e : Error) × (counter.read_config 0 ≡ err e) × (with_plugin counter (tt, 0) ≡ err e))
    ⊎ ((cfg : Unit) × (e : Error) × (reported : Error) × (counter.read_config 0 ≡ ok cfg)
        × ((counter.build cfg tt 0).0 ≡ err e)
        × (with_plugin counter (tt, 0) ≡ err reported)
        × Reports (codes "counter") e reported)
    ⊎ ((cfg : Unit) × (out : ℕ) × (counter.read_config 0 ≡ ok cfg)
        × ((counter.build cfg tt 0).0 ≡ ok out)
        × (with_plugin counter (tt, 0) ≡ ok ((out, tt), 1)))
with_plugin_cases_example = with_plugin_cases counter tt 0
