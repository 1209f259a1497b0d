-- ===== src/Core/State.antt =====
-- crates/muxa-core/src/state.rs: the application state, a list of values of different types that
-- grows at its head. A list type is the list of its values' types, `HNil` and `HCons` its values, and
-- the phantom indices `Here` and `There` are the places of a type in it.
pub mod Selected
mod Tests
use muxa.Prelude.{List, [], ◌∷◌, ◌++◌}

pub data HList : List (Type 0) → Type 1 where
  h_nil : HList []
  h_cons : {T : Type 0} {Ts : List (Type 0)} → (head : T) → (tail : HList Ts) → HList (T ∷ Ts)

-- `Selector<T, I>` holds of a list type: the places at which it has `T`.
pub data Index (T : Type 0) : List (Type 0) → Type 1 where
  here : {Ts : List (Type 0)} → Index T (T ∷ Ts)
  there : {U : Type 0} {Ts : List (Type 0)} → Index T Ts → Index T (U ∷ Ts)

unfoldable pub select : {T : Type 0} {Ts : List (Type 0)} → Index T Ts → HList Ts → T
select here (h_cons head tail) = head
select (there i) (h_cons head tail) = select i tail

-- `State::push`
unfoldable pub push : {T : Type 0} {Ts : List (Type 0)} → T → HList Ts → HList (T ∷ Ts)
push value state = h_cons value state
