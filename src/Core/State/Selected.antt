-- ===== src/Core/State/Selected.antt =====
-- crates/muxa-core/src/state.rs: what a capability selects stays the same as the state grows.
use muxa.Prelude.{◌≡◌, refl, ap, ◌∙◌, List, [], ◌∷◌, ◌++◌}
use muxa.Core.State.{HList, h_nil, h_cons, Index, here, there, select, push}

-- Values pushed one after the other, the last of them first.
unfoldable pub push_all : {Us Ts : List (Type 0)} → HList Us → HList Ts → HList (Us ++ Ts)
unfolding push
push_all h_nil state = state
push_all (h_cons u us) state = push u (push_all us state)

-- A place behind those of the types that were pushed.
abbrev past :
    (Us : List (Type 0)) {T : Type 0} {Ts : List (Type 0)} → Index T Ts → Index T (Us ++ Ts)
past [] i = i
past (U ∷ Us) i = there (past Us i)

-- A place among those of the types that were pushed.
abbrev among :
    {T : Type 0} {Us : List (Type 0)} → Index T Us → (Ts : List (Type 0)) → Index T (Us ++ Ts)
among here Ts = here
among (there i) Ts = there (among i Ts)

select-past :
    {Us Ts : List (Type 0)} {T : Type 0} (us : HList Us) (state : HList Ts) (i : Index T Ts)
    → select (past Us i) (push_all us state) ≡ select i state
unfolding select push_all push
select-past h_nil state i = refl
select-past (h_cons u us) state i = select-past us state i

select-among :
    {Us Ts : List (Type 0)} {T : Type 0} (us : HList Us) (state : HList Ts) (j : Index T Us)
    → select (among j Ts) (push_all us state) ≡ select j us
unfolding select push_all push
select-among h_nil state j = elim j [ ]
select-among (h_cons u us) state here = refl
select-among (h_cons u us) state (there j) = select-among us state j

-- However many values of whatever types plugins push onto a state, each place of the state before
-- selects, further in by as many, the value that it selected there, also where a type stands twice;
-- and each place among the pushed values selects the one that was pushed.
select-push_all :
    {Us Ts : List (Type 0)} {T U : Type 0} (us : HList Us) (state : HList Ts) (i : Index T Ts)
    (j : Index U Us)
    → (select (past Us i) (push_all us state) ≡ select i state)
      × (select (among j Ts) (push_all us state) ≡ select j us)
select-push_all us state i j = (select-past us state i, select-among us state j)

-- A state is what its places select: two states of one type that agree at each place are equal.
eq_of_select :
    {Ts : List (Type 0)} (a b : HList Ts)
    → ((T : Type 0) → (i : Index T Ts) → select i a ≡ select i b)
    → a ≡ b
unfolding select
eq_of_select h_nil h_nil same = refl
eq_of_select (h_cons x a) (h_cons y b) same =
    ap (λ v. h_cons v a) (same _ here) ∙ ap (h_cons y) (eq_of_select a b (λ T i. same T (there i)))
