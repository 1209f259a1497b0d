-- ===== src/Core/State/Tests.antt =====
-- A state of a pool and a flag, onto which another pool is pushed; the unit tests of
-- crates/muxa-core/src/state.rs.
use muxa.Prelude.{ℕ, ◌≡◌, refl, Bool, true, [], ◌∷◌}
use muxa.Core.State.{HList, h_nil, here, select, push}
use muxa.Core.State.Selected.{push_all}

states : Unit {0}
unfolding select push push_all
states = tt

abbrev two : HList (ℕ ∷ Bool ∷ [])
two = push 5 (push true h_nil)

abbrev pool : HList (ℕ ∷ [])
pool = push 7 h_nil

selects_nearest : ◌≡◌ {A = ℕ} (select here (push 7 two)) 7
unfolding states
selects_nearest = refl
