-- ===== src/Auth/Routes/Visits.antt =====
-- Any sequence of requests to crates/muxa-auth/src/routes.rs from one session: no redirect leaves the
-- site, except to a provider.
use mathlib.Core.Path.{subst}
use muxa.Prelude.{◌≡◌, sym, ap, ◌∙◌, ◌⊎◌, inl, inr, Option, []}
use muxa.Prelude.Text.{Text}
use muxa.Auth.Redirect.{safe_next}
use muxa.Auth.Redirect.Safety.{safe_next-IsOnSite}
use muxa.Auth.Redirect.Query.{IsLocal, IsLocal-of_IsOnSite}
use muxa.Auth.Pending.{remember}
use muxa.Auth.Pending.Sessions.{attempts, attempts-remember}
use muxa.Auth.Routes.{
  Backend, Flow, Outside, StartQuery, CallbackQuery, Response, start, callback, sign_out,
}
use muxa.Auth.Routes.Start.{Starts, start_cases}
use muxa.Auth.Routes.Targets.{StaysOnSite, refuse-some}
use muxa.Auth.Routes.Replay.{IsBackend, answer-snd}
use muxa.Auth.Routes.OnSite.{
  IsOnSiteFlow, empty-IsOnSiteMap, IsOnSiteSession, remembered-IsOnSiteMap,
  callback-IsOnSiteSession, callback-StaysOnSite,
}

module _ (b : Backend) (laws : IsBackend b) (flow : Flow b) (local : IsOnSiteFlow b flow) where
  open b use {User}
  open b.sessions use {Session}

  next-IsLocal : (query : StartQuery) → IsLocal (safe_next query.next flow.default_next)
  next-IsLocal query =
      IsLocal-of_IsOnSite _ (safe_next-IsOnSite query.next flow.default_next local.fallback)

  Starts-IsOnSiteSession :
      (out : Outside b) (provider_id : Text) (query : StartQuery) (user : Option User) (s : Session)
      (r : Response × Session)
      → Starts b flow out provider_id query user s r
      → IsOnSiteSession b laws flow local s
      → IsOnSiteSession b laws flow local r.1
  Starts-IsOnSiteSession out provider_id query user s r starts h =
      let p = starts.pending in
      let next : IsLocal p.next = rw (starts.remembers) (next-IsLocal query) in
      let same : starts.left ≡ r.1 = elim starts.reply [
        | inl (_, e) ↦ sym (ap (λ r. r.1) e)
        | inr (_, _, _, e) ↦ sym e
      ] in
      let left : (remember b.sessions out.now_later p s).1 ≡ r.1 =
        ap (λ w. w.1) starts.remembered ∙ same in
      subst (IsOnSiteSession b laws flow local) left
        (elim (attempts-remember b.sessions laws.session out.now_later p s) [
          | inl e ↦ rw e (remembered-IsOnSiteMap out.now_later p (attempts b.sessions s) next h)
          | inr e ↦ rw e h
        ])

  start-IsOnSiteSession :
      (out : Outside b) (provider_id : Text) (query : StartQuery) (user : Option User) (s : Session)
      → IsOnSiteSession b laws flow local s
      → IsOnSiteSession b laws flow local (start b flow out provider_id query user s).1
  start-IsOnSiteSession out provider_id query user s h =
      elim (start_cases b flow out provider_id query user s) [
        | inl starts ↦ Starts-IsOnSiteSession out provider_id query user s _ starts h
        | inr (x, link, why, sent, e) ↦ rw e h
      ]

  -- With a sign-in page and a default page on this site, a start answers with the address of the
  -- provider's authorization, or with a redirect to a path of this site.
  start-StaysOnSite :
      (out : Outside b) (provider_id : Text) (query : StartQuery) (user : Option User) (s : Session)
      → (Starts b flow out provider_id query user s (start b flow out provider_id query user s))
        ⊎ StaysOnSite (start b flow out provider_id query user s).0
  start-StaysOnSite out provider_id query user s =
      elim (start_cases b flow out provider_id query user s) [
        | inl starts ↦ inl starts
        | inr (x, link, why, sent, e) ↦
            inr (rw e (refuse-some b flow local.kept local.home x _ link (next-IsLocal query)))
      ]

  -- One request.
  pub data Visit : Session → Session → Type 0 where
    starts :
        (s : Session) (out : Outside b) (provider_id : Text) (query : StartQuery)
        (user : Option User)
        → Visit s (start b flow out provider_id query user s).1
    calls_back :
        (s : Session) (out : Outside b) (provider_id : Text) (query : CallbackQuery)
        (user : Option User)
        → Visit s (callback b flow out provider_id query user s).1
    signs_out : (s : Session) → Visit s (sign_out b s).1

  pub data Visits (s : Session) : Session → Type 0 where
    here : Visits s s
    next : {t u : Session} → Visits s t → Visit t u → Visits s u

  Visit-IsOnSiteSession :
      {s s' : Session}
      → Visit s s'
      → IsOnSiteSession b laws flow local s
      → IsOnSiteSession b laws flow local s'
  unfolding sign_out
  Visit-IsOnSiteSession (starts s out provider_id query user) h =
      start-IsOnSiteSession out provider_id query user s h
  Visit-IsOnSiteSession (calls_back s out provider_id query user) h =
      callback-IsOnSiteSession b laws flow local out provider_id query user s h
  Visit-IsOnSiteSession (signs_out s) h =
      rw (answer-snd b laws _ _ (b.logout s))
        (elim (laws.logout_clears s) [ inl e ↦ rw e empty-IsOnSiteMap | inr e ↦ rw e h ])

  pub Visits-IsOnSiteSession :
      {s s' : Session}
      → attempts b.sessions s ≡ []
      → Visits s s'
      → IsOnSiteSession b laws flow local s'
  Visits-IsOnSiteSession h here = rw h empty-IsOnSiteMap
  Visits-IsOnSiteSession h (next r v) = Visit-IsOnSiteSession v (Visits-IsOnSiteSession h r)

  -- With a sign-in page and a default page on this site, and a serializer of query strings that writes
  -- no control characters and no backslashes: whatever sign-ins a session that held no attempts has
  -- since started, finished and ended, in whatever order, a callback on it sends the browser to a path
  -- of this site, which begins with one slash and has no backslash and no control character.
  pub Visits-stay_on_site :
      (out : Outside b) (provider_id : Text) (query : CallbackQuery) (user : Option User)
      {s s' : Session}
      → attempts b.sessions s ≡ []
      → Visits s s'
      → StaysOnSite (callback b flow out provider_id query user s').0
  Visits-stay_on_site out provider_id query user {s} {s'} h v =
      callback-StaysOnSite b laws flow local out provider_id query user s'
        (Visits-IsOnSiteSession h v)
