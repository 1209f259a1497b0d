-- ===== src/Auth/Routes/Replay.antt =====
-- A callback that is replayed: crates/muxa-auth/src/routes.rs.
use muxa.Prelude.{◌≡◌, refl, ap, ◌∙◌, ◌⊎◌, inl, inr, Option, none, some, [], arith, Option-cases}
use muxa.Prelude.Text.{Text}
use muxa.Prelude.Effects.{Result, ok, err}
use muxa.Prelude.Assoc.{lookup}
use muxa.Auth.Pending.{PendingLogin}
use muxa.Auth.Pending.Sessions.{IsSession, attempts, take-spent}
use muxa.Auth.Pending.SingleUse.{take-found}
use muxa.Auth.Routes.{
  Backend, Flow, Outside, CallbackQuery, Response, answer, take_attempt, callback,
}
use muxa.Auth.Routes.Resume.{Refuses}
use muxa.Auth.Routes.Callback.{callback_outcomes}

-- What the handlers rely on: the session store's laws, that signing in keeps the attempts
-- (axum-login cycles the session's id and keeps its data), and that signing out empties the
-- session or, where it fails, may leave it.
pub record IsBackend (b : Backend) : Type 0 where
  pub session : IsSession b.sessions
  pub login_keeps :
      (u : b.User) (s : b.sessions.Session)
      → attempts b.sessions (b.login u s).1 ≡ attempts b.sessions s
  pub logout_clears :
      (s : b.sessions.Session)
      → (attempts b.sessions (b.logout s).1 ≡ [])
        ⊎ (attempts b.sessions (b.logout s).1 ≡ attempts b.sessions s)

module _ (b : Backend) (laws : IsBackend b) where
  open b use {User}
  open b.sessions use {Session}

  pub answer-snd :
      {E : Type 0} (good bad : Response) (w : Result E Unit × Session) → (answer good bad w).1 ≡ w.1
  answer-snd good bad (ok _, s) = refl
  answer-snd good bad (err _, s) = refl

  -- Past `take`, a callback leaves the attempts alone.
  pub attempts-callback :
      (flow : Flow b) (out : Outside b) (provider_id : Text) (query : CallbackQuery)
      (user : Option User) (s : Session)
      → attempts b.sessions (callback b flow out provider_id query user s).1
        ≡ attempts b.sessions (take_attempt b flow out provider_id query user s).1
  attempts-callback flow out provider_id query user s =
      elim (callback_outcomes b flow out provider_id query user s) [
        | inl (x, back, to, e) ↦ ap (λ (r : Response × Session). attempts b.sessions r.1) e
        | inr (pending, t, inr (x, back, to, e)) ↦
            ap (λ (r : Response × Session). attempts b.sessions r.1) e
        | inr (pending, t, inl signs) ↦
            ap (λ (r : Response × Session). attempts b.sessions r.1) signs.reply
            ∙ ap (attempts b.sessions) (answer-snd _ _ (b.login signs.resolved.user _))
            ∙ laws.login_keeps signs.resolved.user _
      ]

  take_attempt-spent :
      (flow : Flow b) (out : Outside b) (provider_id : Text) (query : CallbackQuery)
      (user : Option User) (s s1 : Session) (pending : PendingLogin)
      → take_attempt b flow out provider_id query user s ≡ (ok (some pending), s1)
      → (state : Text) × (query.state ≡ some state) × (lookup state (attempts b.sessions s1) ≡ none)
  unfolding take_attempt
  take_attempt-spent flow out provider_id query user s s1 pending used =
      elim (Option-cases query.state) [
        | inl missing ↦ ground arith
        | inr (state, asked) ↦ (
          state,
          asked,
          take-spent b.sessions laws.session out.now state s s1 pending
              (rw (asked, take_attempt) at used),
        )
      ]

  -- Once a callback has taken the attempt of a state token, a callback with the same token after
  -- it signs no one in, whatever the provider, the code, the user or the time: it refuses, and
  -- goes back to no page of the attempt.
  pub callback_replay :
      (flow : Flow b) (out out' : Outside b) (provider_id provider_id' : Text)
      (query query' : CallbackQuery) (user user' : Option User) (s : Session)
      (pending : PendingLogin) (s1 : Session)
      → take_attempt b flow out provider_id query user s ≡ (ok (some pending), s1)
      → query'.state ≡ query.state
      → let s2 = (callback b flow out provider_id query user s).1 in
        Refuses b flow out' provider_id' query' user' none
          (take_attempt b flow out' provider_id' query' user' s2).1
          (callback b flow out' provider_id' query' user' s2)
  callback_replay flow out out' provider_id provider_id' query query' user user' s pending s1 used
        same =
      let s2 = (callback b flow out provider_id query user s).1 in
      let (state, asked, spent) =
        take_attempt-spent flow out provider_id query user s s1 pending used in
      let left : attempts b.sessions s2 ≡ attempts b.sessions s1 =
        attempts-callback flow out provider_id query user s
        ∙ ap
            (λ (w : Result b.sessions.Error (Option PendingLogin) × Session).
              attempts b.sessions w.1)
            used in
      elim (callback_outcomes b flow out' provider_id' query' user' s2) [
        | inl refuses ↦ refuses
        | inr (pending', t, _) ↦
            let (found, _, _) =
              take-found b.sessions laws.session out'.now t.state s2 _ pending' t.took in
            absurd (ground (arith, found, ap (lookup state) left, spent, asked, same, t.asked))
      ]
