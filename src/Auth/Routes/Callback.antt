-- ===== src/Auth/Routes/Callback.antt =====
-- `callback` of crates/muxa-auth/src/routes.rs: when it signs in.
use muxa.Prelude.{
  ◌≡◌, ◌≢◌, refl, ap, ◌∙◌, ◌⊎◌, inl, inr, true, false, Option, none, some, Bool-cases, Option-cases,
  ◌&&◌, arith,
}
use muxa.Prelude.Text.{Text, ◌==◌}
use muxa.Prelude.Text.Laws.{==_iff}
use muxa.Prelude.Effects.{Result, ok, err}
use muxa.Prelude.Assoc.{lookup}
use muxa.Auth.Redirect.{with_query}
use muxa.Auth.Pending.{PendingLogin, take}
use muxa.Auth.Identity.{ExternalIdentity, Resolved, Refusal, refusal, failed, expired}
use muxa.Auth.Routes.Refused.{SentBack, refuse-SentBack}
use muxa.Auth.Routes.{
  Backend, Flow, Outside, CallbackQuery, Response, redirect, answer, refuse, is_none, return_to,
  resume, check_attempt, take_attempt, callback,
}
use muxa.Auth.Routes.Resume.{
  SignsIn, Denies, Refuses, resume_cases, resume_of, sign_in_of, Denied-ReturnsTo,
}

module _ (b : Backend) (flow : Flow b) (out : Outside b) (provider_id : Text)
    (query : CallbackQuery) (user : Option b.User) where
  open b use {User, Value, Provider}
  open b.sessions use {Session}

  -- The attempt that the callback answers, found in the session under the request's state token.
  pub record Takes (pending : PendingLogin) (s s' : Session) : Type 0 where
    pub state : Text
    pub asked : query.state ≡ some state
    pub took : take b.sessions out.now state s ≡ (ok (some pending), s')
    pub started_here : pending.provider ≡ provider_id

  -- Why there is no attempt to go on with, and which code tells so.
  pub data Unusable (s s' : Session) : Refusal → Type 0 where
    unasked : query.state ≡ none → s' ≡ s → Unusable s s' (refusal expired)
    unreadable :
        (state : Text) (e : b.sessions.Error)
        → query.state ≡ some state
        → take b.sessions out.now state s ≡ (err e, s')
        → Unusable s s' (refusal failed)
    missing :
        (state : Text)
        → query.state ≡ some state
        → take b.sessions out.now state s ≡ (ok none, s')
        → Unusable s s' (refusal expired)
    elsewhere :
        (state : Text) (pending : PendingLogin)
        → query.state ≡ some state
        → take b.sessions out.now state s ≡ (ok (some pending), s')
        → pending.provider ≢ provider_id
        → Unusable s s' (refusal expired)

  take_attempt-none :
      (s : Session)
      → query.state ≡ none
      → take_attempt b flow out provider_id query user s ≡ (ok none, s)
  unfolding take_attempt
  take_attempt-none s q = rw (q, take_attempt) refl

  take_attempt-some :
      (s : Session) (state : Text)
      → query.state ≡ some state
      → take_attempt b flow out provider_id query user s ≡ take b.sessions out.now state s
  unfolding take_attempt
  take_attempt-some s state q = rw (q, take_attempt) refl

  check_attempt_of :
      (pending : PendingLogin) (s : Session)
      → (pending.provider == provider_id) ≡ true
      → check_attempt b flow out provider_id query user (ok (some pending), s)
        ≡ resume b flow out provider_id query user pending s
  unfolding check_attempt
  check_attempt_of pending s same = rw (same, check_attempt)

  abbrev pub Gives : Session → Session → Response × Session → Type 0
  Gives s s' r =
      ((x : Refusal) × Unusable s s' x
        × SentBack b flow x none r.0
        × (r ≡ (refuse b flow x none, s')))
      ⊎ ((pending : PendingLogin) × Takes pending s s'
          × (SignsIn b flow out provider_id query user pending s' r
              ⊎ Denies b flow out provider_id query user pending s' r))

  check_attempt-Gives :
      (s : Session) (state : Text)
      → query.state ≡ some state
      → (w : Result b.sessions.Error (Option PendingLogin) × Session)
      → take b.sessions out.now state s ≡ w
      → Gives s w.1 (check_attempt b flow out provider_id query user w)
  unfolding check_attempt
  check_attempt-Gives s state q (err x, s') t =
      inl (refusal failed, unreadable state x q t, refuse-SentBack b flow _ none, refl)
  check_attempt-Gives s state q (ok none, s') t =
      inl (refusal expired, missing state q t, refuse-SentBack b flow _ none, refl)
  check_attempt-Gives s state q (ok (some pending), s') t =
      elim (Bool-cases (pending.provider == provider_id)) [
        | inr other ↦
            let away : pending.provider ≢ provider_id =
              λ e. ground (arith, ==_iff pending.provider provider_id, other, e) in
            inl (
              refusal expired,
              elsewhere state pending q t away,
              rw (other, check_attempt) (refuse-SentBack b flow _ none),
              rw (other, check_attempt) refl,
            )
        | inl same ↦
            let taken : Takes pending s s' = record {
              state = state;
              asked = q;
              took = t;
              started_here = (==_iff _ _).0 same;
            } in
            inr (
              pending,
              taken,
              rw (check_attempt_of pending s' same)
                  (resume_cases b flow out provider_id query user pending s'),
            )
      ]

  callback_eq :
      (s : Session)
      → callback b flow out provider_id query user s
        ≡ check_attempt b flow out provider_id query user
            (take_attempt b flow out provider_id query user s)
  unfolding callback
  callback_eq s = refl

  -- A callback without a usable attempt refuses: the request has no state token, or `take` fails or
  -- finds nothing under it, or the attempt was started at another provider. With an attempt, which
  -- `take` returned for the request's state token and which was started at this provider, it signs
  -- in, or refuses back to where the attempt came from, each refusal with its code and for its
  -- reason: the provider sent an error, there is no code, the provider is off or does not identify
  -- the account, an attempt to link has no signed-in user, or the resolver refused. It signs in only
  -- if none of these holds. A refusal has changed the session by `take` alone.
  pub callback_cases :
      (s : Session)
      → Gives s
          (take_attempt b flow out provider_id query user s).1
          (callback b flow out provider_id query user s)
  unfolding callback check_attempt
  callback_cases s = rw (callback_eq s) (elim (Option-cases query.state) [
    | inl absent ↦
        rw (take_attempt-none s absent)
          (inl (refusal expired, unasked absent refl, refuse-SentBack b flow _ none, refl))
    | inr (state, asked) ↦
        rw (take_attempt-some s state asked) (check_attempt-Gives s state asked _ refl)
  ])

  -- The same, without the reasons.
  pub callback_outcomes :
      (s : Session)
      → Refuses b flow out provider_id query user none
          (take_attempt b flow out provider_id query user s).1
          (callback b flow out provider_id query user s)
        ⊎ ((pending : PendingLogin) × Takes pending s
              (take_attempt b flow out provider_id query user s).1
            × (SignsIn b flow out provider_id query user pending
                  (take_attempt b flow out provider_id query user s).1
                  (callback b flow out provider_id query user s)
                ⊎ Refuses b flow out provider_id query user
                    (some pending)
                    (take_attempt b flow out provider_id query user s).1
                    (callback b flow out provider_id query user s)))
  callback_outcomes s = elim (callback_cases s) [
    | inl (x, why, sent, e) ↦ inl (x, none, refl, e)
    | inr (pending, taken, inl signs) ↦ inr (pending, taken, inl signs)
    | inr (pending, taken, inr (x, back, why, sent, e)) ↦ inr (
      pending,
      taken,
      inr (x, back, Denied-ReturnsTo b flow out provider_id query user pending x back why, e),
    )
  ]

  take_attempt_of_Takes :
      (pending : PendingLogin) (s s' : Session)
      → Takes pending s s'
      → take_attempt b flow out provider_id query user s ≡ (ok (some pending), s')
  unfolding take_attempt
  take_attempt_of_Takes pending s s' t = rw (t.asked, take_attempt) t.took

  -- The other way round: a callback that has a usable attempt and no error, a code that the
  -- provider, which is on, turns into an account, and a resolver that accepts it, with a user
  -- signed in where the attempt is a link, calls for the sign-in of the resolved user, and answers
  -- by its outcome alone.
  pub callback_signs_in :
      (pending : PendingLogin) (s s' : Session) (code : Text) (provider : Provider)
      (identity : ExternalIdentity Value) (resolved : Resolved User)
      → Takes pending s s'
      → query.error ≡ none
      → query.code ≡ some code
      → lookup provider_id flow.providers ≡ some provider
      → out.identify provider code pending ≡ ok identity
      → (pending.link && is_none b user) ≡ false
      → out.resolve identity (record { current_user = user; link = pending.link }) ≡ ok resolved
      → callback b flow out provider_id query user s
        ≡ answer
            (redirect (with_query b.finish pending.next resolved.query))
            (refuse b flow (refusal failed) (some (return_to pending)))
            (b.login resolved.user s')
  unfolding callback
  callback_signs_in pending s s' code provider identity resolved t p q l i k r =
      ap (check_attempt b flow out provider_id query user) (take_attempt_of_Takes pending s s' t)
      ∙ check_attempt_of pending s' ((==_iff _ _).1 t.started_here)
      ∙ resume_of b flow out provider_id query user pending s' code provider identity p q l i
      ∙ sign_in_of b flow out provider_id query user pending identity resolved s' k r
