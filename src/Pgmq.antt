-- ===== src/Pgmq.antt =====
-- crates/muxa-pgmq/src/lib.rs: the queues that exist after startup.
--
-- Parameters: the pool, and pgmq's installation and creation of queues. `sort_unstable` is an
-- insertion sort here: strings that compare equal are equal, so every sort gives the same.
pub mod Order
pub mod Merged
pub mod Created
mod Tests
use muxa.Prelude.{Bool, true, false, ◌&&◌, ◌||◌, List, [], ◌∷◌, ◌++◌, eqb, ltb, if◌then◌else◌}
use muxa.Prelude.Text.{Text, codes, ◌==◌}
use muxa.Prelude.Effects.{Result, ok, err}

pub record PgmqConfig : Type 0 where
  pub queues : List Text

pub record PgmqPlugin : Type 0 where
  pub queues : List Text

abbrev pub new_plugin : PgmqPlugin
new_plugin = record { queues = [] }

unfoldable pub queues : List Text → PgmqPlugin → PgmqPlugin
queues qs plugin = record { queues = plugin.queues ++ qs }

-- The order of strings: that of their bytes, which for UTF-8 is that of their code points.
unfoldable pub lt_text : Text → Text → Bool
lt_text s [] = false
lt_text [] (d ∷ t) = true
lt_text (c ∷ s) (d ∷ t) = ltb c d || (eqb c d && lt_text s t)

unfoldable pub insert_sorted : Text → List Text → List Text
unfolding lt_text
insert_sorted x [] = x ∷ []
insert_sorted x (y ∷ ys) =
    let behind = insert_sorted x ys in if lt_text y x then y ∷ behind else x ∷ (y ∷ ys)

unfoldable pub sort_unstable : List Text → List Text
unfolding insert_sorted
sort_unstable [] = []
sort_unstable (x ∷ xs) = insert_sorted x (sort_unstable xs)

-- Of equal neighbours one stays.
abbrev pub put_before : Text → List Text → List Text
put_before x [] = x ∷ []
put_before x (y ∷ ys) = if x == y then y ∷ ys else x ∷ (y ∷ ys)

unfoldable pub dedup : List Text → List Text
dedup [] = []
dedup (x ∷ xs) = put_before x (dedup xs)

unfoldable pub merge_queues : List Text → List Text → List Text
unfolding sort_unstable dedup
merge_queues from_plugin from_config = dedup (sort_unstable (from_plugin ++ from_config))

pub record Pgmq : Type 1 where
  pub State : Type 0
  pub acquire : State → Result Text Unit
  pub install : State → Result Text Unit × State
  pub create : Text → State → Result Text Unit × State

abbrev pub pgmq_error : Text → Text
pgmq_error e = codes "pgmq: " ++ e

module _ (q : Pgmq) where
  open q use {State}

  -- `box_pgmq_err`, and the next step on what is left
  abbrev pub then_next :
      Result Text Unit × State → (State → Result Text Unit × State) → Result Text Unit × State
  then_next (err e, s) next = (err (pgmq_error e), s)
  then_next (ok _, s) next = next s

  unfoldable pub create_all : List Text → State → Result Text Unit × State
  create_all [] s = (ok tt, s)
  create_all (name ∷ names) s = then_next (q.create name s) (create_all names)

  abbrev pub acquired :
      Text
      → Result Text Unit
      → State
      → (State → Result Text Unit × State)
      → Result Text Unit × State
  acquired context (err e) s next = (err (context ++ e), s)
  acquired context (ok _) s next = next s

  -- `build` over sqlx: pgmq is installed through the pool, then a connection is acquired.
  unfoldable pub build_sqlx : PgmqPlugin → PgmqConfig → State → Result Text Unit × State
  unfolding merge_queues create_all
  build_sqlx plugin cfg s = then_next (q.install s) (λ s'.
      acquired (codes "sqlx acquire: ") (q.acquire s') s'
        (create_all (merge_queues plugin.queues cfg.queues)))

  -- `build` over diesel-async: all on one connection of the pool
  unfoldable pub build_diesel : PgmqPlugin → PgmqConfig → State → Result Text Unit × State
  unfolding merge_queues create_all
  build_diesel plugin cfg s =
      acquired (codes "diesel get: ") (q.acquire s) s
        (λ s'. then_next (q.install s') (create_all (merge_queues plugin.queues cfg.queues)))
