-- ===== src/Auth/Pending/Reach.antt =====
-- Any sequence of `remember` and `take` of crates/muxa-auth/src/routes.rs on one session.
use muxa.Prelude.{ℕ, ◌≡◌, ◌≢◌, ◌≤◌, some, [], arith, inl, inr, Bool-cases, length}
use muxa.Prelude.Text.{Text, ◌==◌}
use muxa.Prelude.Text.Laws.{==_iff}
use muxa.Prelude.Assoc.{IsMap, lookup}
use muxa.Auth.Pending.{
  PendingLogin, PendingMap, SessionOps, max_pending, remembered, taken, remember, take,
}
use muxa.Auth.Pending.Attempts.{taken_lem, remembered-IsMap, remembered-keeps, taken-IsMap}
use muxa.Auth.Pending.Sessions.{IsSession, attempts, attempts-remember, attempts-take}

-- At most four attempts, each under its own state token.
pub record IsWellFormed (m : PendingMap) : Type 0 where
  pub unique : IsMap m
  pub bounded : length m ≤ max_pending
  pub keyed : (j : Text) (a : PendingLogin) → lookup j m ≡ some a → a.state ≡ j

pub remembered-IsWellFormed :
    (now : ℕ) (p : PendingLogin) (m : PendingMap)
    → IsWellFormed m
    → IsWellFormed (remembered now p m)
remembered-IsWellFormed now p m h =
    let (unique, bounded, found) = remembered-IsMap now p m h.unique in
    record {
      unique = unique;
      bounded = bounded;
      keyed = λ j a at. elim (Bool-cases (j == p.state)) [
        | inl same ↦ ground (arith, found, same, ==_iff j p.state)
        | inr other ↦
            let ne : j ≢ p.state = λ e. ground (arith, ==_iff j p.state) in
            h.keyed j a (remembered-keeps now p m h.unique j a ne at).0
      ];
    }

pub taken-IsWellFormed :
    (state : Text) (m : PendingMap) → IsWellFormed m → IsWellFormed (taken state m).1
taken-IsWellFormed state m h =
    let (unique, smaller) = taken-IsMap state m h.unique in
    record {
      unique = unique;
      bounded = omega (arith, smaller, h.bounded);
      keyed = λ j a at. ground (arith, h.keyed j a, (taken_lem state m).1 j);
    }

-- The requests that reach one session: sign-ins that start, and callbacks.
module _ (ops : SessionOps) (laws : IsSession ops) where
  open ops use {Session}

  pub data Step : Session → Session → Type 0 where
    remembers : (s : Session) (now : ℕ) (p : PendingLogin) → Step s (remember ops now p s).1
    takes : (s : Session) (now : ℕ) (state : Text) → Step s (take ops now state s).1

  pub data Reach (s : Session) : Session → Type 0 where
    here : Reach s s
    next : {t u : Session} → Reach s t → Step t u → Reach s u

  Step-IsWellFormed :
      {s s' : Session} → Step s s' → IsWellFormed (attempts ops s) → IsWellFormed (attempts ops s')
  Step-IsWellFormed (remembers s now p) h = elim (attempts-remember ops laws now p s) [
    | inl e ↦ rw e (remembered-IsWellFormed now p (attempts ops s) h)
    | inr e ↦ rw e h
  ]
  Step-IsWellFormed (takes s now state) h = elim (attempts-take ops laws now state s) [
    | inl e ↦ rw e (taken-IsWellFormed state (attempts ops s) h)
    | inr e ↦ rw e h
  ]

  -- From a session without attempts, however many sign-ins it starts and finishes, in whatever
  -- order, whether its writes succeed or not, it holds at most four attempts, each once and under
  -- its own state token.
  pub Reach-IsWellFormed :
      {s s' : Session} → attempts ops s ≡ [] → Reach s s' → IsWellFormed (attempts ops s')
  Reach-IsWellFormed h here =
      rw h (record { unique = tt; bounded = omega arith; keyed = unfold lookup in λ j a e. cc })
  Reach-IsWellFormed h (next r st) = Step-IsWellFormed st (Reach-IsWellFormed h r)
