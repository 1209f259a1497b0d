-- ===== src/Auth/Pending/SingleUse.antt =====
-- `remember` and `take` of crates/muxa-auth/src/routes.rs together: an attempt that was remembered is
-- found once, while it is fresh.
use muxa.Prelude.{ℕ, ◌≡◌, true, Option, none, some, if◌then◌else◌, arith, ap, ◌∙◌}
use muxa.Prelude.Text.{Text, ◌==◌}
use muxa.Prelude.Effects.{ok}
use muxa.Prelude.Assoc.{IsMap, lookup}
use muxa.Auth.Pending.{PendingLogin, SessionOps, fresh, remember, take}
use muxa.Auth.Pending.Attempts.{taken_lem, remembered-IsMap}
use muxa.Auth.Pending.Sessions.{IsSession, attempts, take-eq_ok, remember-eq_ok, take-spent}

module _ (ops : SessionOps) (laws : IsSession ops) where
  open ops use {Session}

  -- A state token is good for one callback: once `take` has returned its attempt, the next `take`
  -- with the same token, if it succeeds, finds nothing, whatever the time.
  pub take_single_use :
      (now now' : ℕ) (state : Text) (s s' s'' : Session) (a : PendingLogin)
      (r : Option PendingLogin)
      → take ops now state s ≡ (ok (some a), s')
      → take ops now' state s' ≡ (ok r, s'')
      → r ≡ none
  take_single_use now now' state s s' s'' a r first second =
      let (found, _) = take-eq_ok ops laws now' state s' s'' r second in
      ground (
        arith,
        found,
        take-spent ops laws now state s s' a first,
        (taken_lem state (attempts ops s')).0,
      )

  -- In a session with each token once, a `take` after a `remember`, both of which succeed, returns
  -- what was remembered under its state token if it is still fresh, and nothing if not.
  pub take-remember :
      (now now' : ℕ) (p : PendingLogin) (s s' s'' : Session) (r : Option PendingLogin)
      → IsMap (attempts ops s)
      → remember ops now p s ≡ (ok tt, s')
      → take ops now' p.state s' ≡ (ok r, s'')
      → r ≡ (if fresh now' p then some p else none)
  take-remember now now' p s s' s'' r unique stored e =
      let (found, _) = take-eq_ok ops laws now' p.state s' s'' r e in
      let there : lookup p.state (attempts ops s') ≡ some p =
        ap (lookup p.state) (remember-eq_ok ops laws now p s s' stored)
        ∙ (remembered-IsMap now p (attempts ops s) unique).2 in
      ground (arith, found, there, (taken_lem p.state (attempts ops s')).0)

  -- `take` returns only an attempt that the session held under the token and that is fresh, and
  -- removes that one alone.
  pub take-found :
      (now : ℕ) (state : Text) (s s' : Session) (a : PendingLogin)
      → take ops now state s ≡ (ok (some a), s')
      → (lookup state (attempts ops s) ≡ some a)
        × (fresh now a ≡ true)
        × ((j : Text)
            → lookup j (attempts ops s') ≡ (if state == j then none else lookup j (attempts ops s)))
  take-found now state s s' a e =
      let (found, left) = take-eq_ok ops laws now state s s' (some a) e in
      let (looked, others) = taken_lem state (attempts ops s) in
      (
        ground (arith, found, looked),
        ground (arith, found, looked),
        λ j. ap (lookup j) left ∙ others j,
      )
