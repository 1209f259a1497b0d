-- ===== src/Auth/Pending/Tests.antt =====
-- Runs of `remember` and `take`, over a session that keeps its map in memory.
use muxa.Prelude.{ℕ, ◌≡◌, ◌≤◌, refl, false, Option, none, some, [], ◌∷◌, arith, if◌then◌else◌}
use muxa.Prelude.Text.{Text, codes, str_ops, ◌==◌}
use muxa.Prelude.Text.Laws.{ne_of_test}
use muxa.Prelude.Effects.{ok}
use muxa.Prelude.Assoc.{IsMap, lookup}
use muxa.Auth.Pending.{
  PendingLogin, PendingMap, SessionOps, fresh, remembered, taken, remember, take,
}
use muxa.Auth.Pending.Attempts.{remembered-drops_oldest, taken_lem}
use muxa.Auth.Pending.Sessions.{IsSession, attempts}
use muxa.Auth.Pending.SingleUse.{take_single_use, take-remember}
use muxa.Auth.Pending.Reach.{Reach, Step, IsWellFormed, Reach-IsWellFormed}

abbrev memory : SessionOps
memory = record {
  Session = Option PendingMap;
  Error = Unit;
  get = λ s. ok s;
  insert = λ m s. (ok tt, some m);
  remove = λ s. (ok tt, none);
}

memory-IsSession : IsSession memory
memory-IsSession = record {
  get-insert = λ map s s' e. ground arith;
  get-remove = λ s s' e. ground arith;
  get-insert_failed = λ map s s' x e. ground arith;
  get-remove_failed = λ s s' x e. ground arith;
}

abbrev attempt : Text → ℕ → PendingLogin
attempt state created_at = record {
  provider = codes "ogs";
  state = state;
  pkce_verifier = none;
  nonce = none;
  next = codes "/games";
  link = false;
  created_at = created_at;
}

abbrev entry : Text → ℕ → Text × PendingLogin
entry state created_at = (state, attempt state created_at)

-- Four attempts, the second the oldest, and the first too old at 700.
abbrev four : PendingMap
four =
    entry (codes "a") 50
    ∷ entry (codes "b") 200
    ∷ entry (codes "c") 300
    ∷ entry (codes "d") 400
    ∷ []

abbrev full : PendingMap
full =
    entry (codes "a") 500
    ∷ entry (codes "b") 200
    ∷ entry (codes "c") 300
    ∷ entry (codes "d") 400
    ∷ []

pending : Unit {0}
unfolding remembered taken remember take lookup str_ops
pending = tt

remembered_tests :
    (remembered 700 (attempt (codes "e") 700) four
      ≡ entry (codes "e") 700
        ∷ entry (codes "b") 200
        ∷ entry (codes "c") 300
        ∷ entry (codes "d") 400
        ∷ [])
    × (remembered 700 (attempt (codes "e") 700) full
        ≡ entry (codes "e") 700
          ∷ entry (codes "a") 500
          ∷ entry (codes "c") 300
          ∷ entry (codes "d") 400
          ∷ [])
unfolding pending
remembered_tests = (refl, refl)

take_tests :
    (take memory 700 (codes "b") (some full) ≡ (
      ok (some (attempt (codes "b") 200)),
      some (entry (codes "a") 500 ∷ entry (codes "c") 300 ∷ entry (codes "d") 400 ∷ []),
    ))
    × (take memory 900 (codes "b") (some (entry (codes "b") 200 ∷ [])) ≡ (ok none, none))
    × (take memory 900 (codes "b") none ≡ (ok none, none))
unfolding pending
take_tests = (refl, refl, refl)

full-IsMap : IsMap full
unfolding pending
full-IsMap = (refl, (refl, (refl, (refl, tt))))

remembered-drops_oldest_example : 200 ≤ 300
unfolding pending
remembered-drops_oldest_example =
    remembered-drops_oldest 700 (attempt (codes "e") 700) full full-IsMap (codes "b") (codes "c")
      (attempt (codes "b") 200) (attempt (codes "c") 300) (ne_of_test _ _ refl)
      (ne_of_test _ _ refl) refl refl refl refl

taken_lem_example :
    ((taken (codes "b") full).0 ≡ lookup (codes "b") full)
    × ((j : Text)
        → lookup j (taken (codes "b") full).1 ≡ (if codes "b" == j then none else lookup j full))
taken_lem_example = taken_lem (codes "b") full

abbrev after_b : Option PendingMap
after_b = some (entry (codes "a") 500 ∷ entry (codes "c") 300 ∷ entry (codes "d") 400 ∷ [])

take_single_use_example : ◌≡◌ {A = Option PendingLogin} none none
unfolding pending
take_single_use_example =
    take_single_use memory memory-IsSession 700 701 (codes "b") (some full) after_b after_b
      (attempt (codes "b") 200) none refl refl

abbrev stored : Option PendingMap
stored = some (entry (codes "e") 700 ∷ [])

take-remember_example :
    some (attempt (codes "e") 700)
    ≡ (if fresh 1299 (attempt (codes "e") 700) then some (attempt (codes "e") 700) else none)
unfolding pending
take-remember_example =
    take-remember memory memory-IsSession 700 1299 (attempt (codes "e") 700) none stored none
      (some (attempt (codes "e") 700)) tt refl refl

stored-Reach : Reach memory memory-IsSession none stored
unfolding pending
stored-Reach = Reach.next Reach.here (Step.remembers none 700 (attempt (codes "e") 700))

Reach-IsWellFormed_example : IsWellFormed (attempts memory stored)
Reach-IsWellFormed_example = Reach-IsWellFormed memory memory-IsSession refl stored-Reach
