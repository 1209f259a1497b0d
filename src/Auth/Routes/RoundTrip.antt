-- ===== src/Auth/Routes/RoundTrip.antt =====
-- A sign-in from its start to its callback: crates/muxa-auth/src/routes.rs.
use muxa.Prelude.{◌≡◌, refl, ap, Option, none, some, true, false, ◌&&◌, arith}
use muxa.Prelude.Text.{Text}
use muxa.Prelude.Effects.{ok}
use muxa.Prelude.Assoc.{IsMap, lookup}
use muxa.Auth.Redirect.{with_query}
use muxa.Auth.Pending.{PendingLogin, fresh, remember, take}
use muxa.Auth.Pending.Sessions.{attempts}
use muxa.Auth.Pending.SingleUse.{take-remember}
use muxa.Auth.Identity.{ExternalIdentity, Resolved, refusal, failed}
use muxa.Auth.Routes.{
  Backend, Flow, Outside, CallbackQuery, redirect, Return, Authorization, new_attempt, answer,
  refuse, is_none, begin_sign_in, callback,
}
use muxa.Auth.Routes.Callback.{callback_signs_in}
use muxa.Auth.Routes.Replay.{IsBackend}

module _ (b : Backend) (laws : IsBackend b) (flow : Flow b) where
  open b use {User, Value, Provider}
  open b.sessions use {Session}

  -- In a session with each token once, a sign-in that is stored sends the browser to the provider;
  -- and if its callback can take from the session while the attempt is fresh, and has its token,
  -- no error, and a code that the provider and the resolver accept, with a user signed in where it
  -- is a link, then it signs the resolved user in and goes on to the page that the start was asked
  -- for, or refuses where that sign-in fails.
  pub begin-callback :
      (out out' : Outside b) (provider_id : Text) (to : Return) (a : Authorization)
      (query : CallbackQuery) (user : Option User) (s s1 s2 : Session) (r : Option PendingLogin)
      (code : Text) (provider : Provider) (identity : ExternalIdentity Value)
      (resolved : Resolved User)
      → IsMap (attempts b.sessions s)
      → remember b.sessions out.now_later (new_attempt out.now provider_id to a) s ≡ (ok tt, s1)
      → take b.sessions out'.now a.state s1 ≡ (ok r, s2)
      → fresh out'.now (new_attempt out.now provider_id to a) ≡ true
      → query.state ≡ some a.state
      → query.error ≡ none
      → query.code ≡ some code
      → lookup provider_id flow.providers ≡ some provider
      → out'.identify provider code (new_attempt out.now provider_id to a) ≡ ok identity
      → (to.link && is_none b user) ≡ false
      → out'.resolve identity (record { current_user = user; link = to.link }) ≡ ok resolved
      → (begin_sign_in b flow out provider_id to a s ≡ (redirect a.url, s1))
        × (callback b flow out' provider_id query user s1
            ≡ answer
                (redirect (with_query b.finish to.next resolved.query))
                (refuse b flow (refusal failed) (some to))
                (b.login resolved.user s2))
  unfolding begin_sign_in
  begin-callback out out' provider_id to a query user s s1 s2 r code provider identity resolved
        unique stored taken in_time asked p q l i k e =
      let pending = new_attempt out.now provider_id to a in
      let found =
        take-remember b.sessions laws.session out.now_later out'.now pending s s1 s2 r unique stored
          taken in
      let took : take b.sessions out'.now a.state s1 ≡ (ok (some pending), s2) =
        ground (arith, taken, found, in_time) in
      (
        ap (answer (redirect a.url) (refuse b flow (refusal failed) (some to))) stored,
        callback_signs_in b flow out' provider_id query user pending s1 s2 code provider identity
            resolved (record { state = a.state; asked = asked; took = took; started_here = refl }) p
            q l i k e,
      )
