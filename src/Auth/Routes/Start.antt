-- ===== src/Auth/Routes/Start.antt =====
-- `start` of crates/muxa-auth/src/routes.rs: when it sends the browser to a provider.
use muxa.Prelude.{
  ◌≡◌, ◌≢◌, refl, sym, ◌↔◌, ◌⊎◌, inl, inr, Option, none, some, Option-cases, Bool-cases, Bool, true,
  false, ◌&&◌, arith,
}
use mathlib.Core.Path.{subst}
use muxa.Prelude.Text.{Text}
use muxa.Prelude.Effects.{Result, ok, err, Result-cases}
use muxa.Prelude.Assoc.{lookup}
use muxa.Auth.Redirect.{safe_next}
use muxa.Auth.Identity.{Refusal, refusal, unavailable, signed_out, provider_failed, failed}
use muxa.Auth.Routes.{
  Backend, Flow, Outside, StartQuery, Response, redirect, Return, Authorization, refuse, is_none,
  asks_link, start, begin_sign_in, new_attempt, answer,
}
use muxa.Auth.Pending.{PendingLogin, remember}
use muxa.Auth.Routes.Refused.{SentBack, refuse-SentBack, AsksLink, asks_link_iff}

-- Where the request asked to go back to, as far as that is on this site.
abbrev pub asked_return : (b : Backend) → Flow b → StartQuery → Return
asked_return b flow query = record {
  next = safe_next query.next flow.default_next;
  link = asks_link b query.link;
}

module _ (b : Backend) (flow : Flow b) (out : Outside b) (provider_id : Text) (query : StartQuery)
    (user : Option b.User) where
  open b use {User, Provider}
  open b.sessions use {Session}

  -- Why a start is refused, with which code and whether it was a link.
  pub data StartDenied : Refusal → (link : Bool) → Type 0 where
    turned_off :
        (link : Bool)
        → ((link ≡ true) ↔ AsksLink query.link)
        → lookup provider_id flow.providers ≡ none
        → StartDenied (refusal unavailable) link
    without_user : AsksLink query.link → user ≡ none → StartDenied (refusal signed_out) false
    unauthorized :
        (link : Bool) (provider : Provider) (e : Text)
        → ((link ≡ true) ↔ AsksLink query.link)
        → lookup provider_id flow.providers ≡ some provider
        → out.authorize provider ≡ err e
        → StartDenied (refusal provider_failed) link

  abbrev pub back_to : Bool → Option Return
  back_to link = some (record { next = safe_next query.next flow.default_next; link = link })

  abbrev pub StartRefuses : Session → Response × Session → Type 0
  StartRefuses s r =
      (x : Refusal) × (link : Bool) × StartDenied x link
      × SentBack b flow x (back_to link) r.0
      × (r ≡ (refuse b flow x (back_to link), s))

  pub record Starts (s : Session) (r : Response × Session) : Type 0 where
    pub provider : Provider
    pub enabled : lookup provider_id flow.providers ≡ some provider
    pub link : Bool
    pub asked_link : (link ≡ true) ↔ AsksLink query.link
    pub link_needs_user : link ≡ true → user ≢ none
    pub authorization : Authorization
    pub authorized : out.authorize provider ≡ ok authorization
    -- What is remembered of the sign-in until the browser comes back.
    pub pending : PendingLogin
    pub remembers : pending ≡ record {
      provider = provider_id;
      state = authorization.state;
      pkce_verifier = authorization.pkce_verifier;
      nonce = authorization.nonce;
      next = safe_next query.next flow.default_next;
      link = link;
      created_at = out.now;
    }
    pub wrote : Result b.sessions.Error Unit
    pub left : Session
    pub remembered : remember b.sessions out.now_later pending s ≡ (wrote, left)
    pub reply :
        ((wrote ≡ ok tt) × (r ≡ (redirect authorization.url, left)))
        ⊎ ((e : b.sessions.Error) × (wrote ≡ err e)
            × SentBack b flow (refusal failed) (back_to link) r.0
            × (r.1 ≡ left))

  start_denied :
      (s : Session) (x : Refusal) (link : Bool) (r : Response × Session)
      → StartDenied x link
      → r ≡ (refuse b flow x (back_to link), s)
      → StartRefuses s r
  start_denied s x link r why e = (
    x,
    link,
    why,
    subst (λ r. SentBack b flow x (back_to link) r.0) (sym e)
        (refuse-SentBack b flow x (back_to link)),
    e,
  )

  replied :
      (url : Text) (link : Bool) (w : Result b.sessions.Error Unit × Session)
      → let r = answer (redirect url) (refuse b flow (refusal failed) (back_to link)) w in
        ((w.0 ≡ ok tt) × (r ≡ (redirect url, w.1)))
        ⊎ ((e : b.sessions.Error) × (w.0 ≡ err e)
            × SentBack b flow (refusal failed) (back_to link) r.0
            × (r.1 ≡ w.1))
  replied url link (ok _, s) = inl (refl, refl)
  replied url link (err e, s) =
      inr (e, refl, refuse-SentBack b flow (refusal failed) (back_to link), refl)

  lost_user :
      (link : Bool) (o : Option User) → (link && is_none b o) ≡ true → (link ≡ true) × (o ≡ none)
  lost_user true none h = (refl, refl)
  lost_user true (some u) h = ground arith
  lost_user false o h = ground arith

  begin-Starts :
      (s : Session) (provider : Provider) (a : Authorization)
      → lookup provider_id flow.providers ≡ some provider
      → (asks_link b query.link && is_none b user) ≡ false
      → out.authorize provider ≡ ok a
      → Starts s (begin_sign_in b flow out provider_id (asked_return b flow query) a s)
  unfolding begin_sign_in
  begin-Starts s provider a l fine e =
      let pending = new_attempt out.now provider_id (asked_return b flow query) a in
      let w = remember b.sessions out.now_later pending s in
      record {
        provider = provider;
        enabled = l;
        link = asks_link b query.link;
        asked_link = asks_link_iff b query.link;
        link_needs_user = λ linking gone. ground arith;
        authorization = a;
        authorized = e;
        pending = pending;
        remembers = refl;
        wrote = w.0;
        left = w.1;
        remembered = refl;
        reply = replied a.url (asks_link b query.link) w;
      }

  start_of :
      (s : Session) (provider : Provider) (a : Authorization)
      → lookup provider_id flow.providers ≡ some provider
      → (asks_link b query.link && is_none b user) ≡ false
      → out.authorize provider ≡ ok a
      → start b flow out provider_id query user s
        ≡ begin_sign_in b flow out provider_id (asked_return b flow query) a s
  unfolding start
  start_of s provider a l fine e = rw (l, start) (rw fine (rw e))

  -- A start refuses, with the session as it was, exactly for the reason that it tells: the provider
  -- is off or does not authorize, or an attempt to link has no signed-in user. Else it remembers the
  -- attempt, with what the provider's authorization gave and where the request asked to go back to,
  -- as far as that is on this site; it redirects to the provider's address where that is written, and
  -- refuses where it is not.
  pub start_cases :
      (s : Session)
      → Starts s (start b flow out provider_id query user s)
        ⊎ StartRefuses s (start b flow out provider_id query user s)
  unfolding start
  start_cases s = elim (Option-cases (lookup provider_id flow.providers)) [
    | inl missing ↦ inr (
        start_denied s _ _ _
          (turned_off (asks_link b query.link) (asks_link_iff b query.link) missing)
          (rw (missing, start) refl))
    | inr (provider, l) ↦ elim (Bool-cases (asks_link b query.link && is_none b user)) [
      | inl lost ↦
          let (links, gone) = lost_user (asks_link b query.link) user lost in
          inr (
            start_denied s _ _ _ (without_user ((asks_link_iff b query.link).0 links) gone)
              (rw (l, start) (rw lost refl)))
      | inr fine ↦ elim (Result-cases (out.authorize provider)) [
        | inr (x, a) ↦ inr (
            start_denied s _ _ _
              (unauthorized (asks_link b query.link) provider x (asks_link_iff b query.link) l a)
              (rw (l, start) (rw fine (rw a refl))))
        | inl (authorization, a) ↦ inl (
            rw (start_of s provider authorization l fine a)
              (begin-Starts s provider authorization l fine a))
      ]
    ]
  ]
