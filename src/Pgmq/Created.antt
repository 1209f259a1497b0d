-- ===== src/Pgmq/Created.antt =====
-- crates/muxa-pgmq/src/lib.rs: which queues are created where one fails.
use muxa.Prelude.{◌≡◌, refl, ap, ◌⊎◌, inl, inr, List, [], ◌∷◌, ◌++◌}
use muxa.Prelude.Text.{Text}
use muxa.Prelude.Effects.{Result, ok, err}
use muxa.Pgmq.{Pgmq, pgmq_error, then_next, create_all}

module _ (q : Pgmq) where
  open q use {State}

  -- The queues are created one after the other.
  pub data Creates : List Text → State → State → Type 0 where
    none_left : {s : State} → Creates [] s s
    one_more :
        {name : Text} {names : List Text} {s s' s'' : State}
        → q.create name s ≡ (ok tt, s')
        → Creates names s' s''
        → Creates (name ∷ names) s s''

  -- All are created, or those before the first that fails.
  abbrev pub Ends : List Text → State → Result Text Unit × State → Type 0
  Ends names s (result, s') =
      ((result ≡ ok tt) × Creates names s s')
      ⊎ ((before : List Text) × (name : Text) × (after : List Text) × (e : Text) × (at : State)
          × (names ≡ before ++ (name ∷ after))
          × Creates before s at
          × (q.create name at ≡ (err e, s'))
          × (result ≡ err (pgmq_error e)))

  later-Ends :
      (name : Text) (names : List Text) (s at : State) (r : Result Text Unit × State)
      → q.create name s ≡ (ok tt, at)
      → Ends names at r
      → Ends (name ∷ names) s r
  later-Ends name names s at r done (inl (fine, rest)) = inl (fine, one_more done rest)
  later-Ends name names s at r done (inr (before, bad, after, e, s', split, rest, failed, result)) =
      inr (
        name ∷ before,
        bad,
        after,
        e,
        s',
        ap (λ ns. name ∷ ns) split,
        one_more done rest,
        failed,
        result,
      )

  -- The queues are created in their order, until one fails: then those before it have been created,
  -- none behind it is tried, and its error is the answer.
  pub create_all-Ends : (names : List Text) (s : State) → Ends names s (create_all q names s)
  unfolding create_all
  create_all-Ends [] s = inl (refl, none_left)
  create_all-Ends (name ∷ names) s = of (q.create name s) refl (λ at. create_all-Ends names at)
    where
      of :
          (r : Result Text Unit × State)
          → q.create name s ≡ r
          → ((at : State) → Ends names at (create_all q names at))
          → Ends (name ∷ names) s (then_next q r (create_all q names))
      of (err e, s') h later = inr ([], name, names, e, s, refl, none_left, h, refl)
      of (ok _, s') h later = later-Ends name names s s' (create_all q names s') h (later s')
