-- ===== src/Auth/Routes/Resume.antt =====
-- `resume` of `callback` in crates/muxa-auth/src/routes.rs: whether an attempt that was found signs in.
use muxa.Prelude.{
  ◌≡◌, ◌≢◌, refl, ap, ◌∙◌, ◌⊎◌, inl, inr, Bool, true, false, Option, none, some, Bool-cases, ◌&&◌,
  arith, sym,
}
use mathlib.Core.Path.{subst}
use muxa.Prelude.Text.{Text, codes, ◌==◌}
use muxa.Prelude.Text.Laws.{==_iff}
use muxa.Prelude.Effects.{ok, err, Result-cases}
use muxa.Prelude.Assoc.{lookup}
use muxa.Auth.Redirect.{with_query}
use muxa.Auth.Pending.{PendingLogin}
use muxa.Auth.Identity.{
  ExternalIdentity, Resolved, Refusal, refusal, failed, signed_out, provider_failed, cancelled,
}
use muxa.Auth.Routes.Refused.{SentBack, refuse-SentBack}
use muxa.Auth.Routes.{
  Backend, Flow, Outside, CallbackQuery, Response, redirect, Return, answer, refuse, is_none,
  return_to, return_signed_out, sign_in, resume,
}

-- Where a refusal goes: for an attempt that was found, on to its `next`.
abbrev pub ReturnsTo : Option PendingLogin → Option Return → Type 0
ReturnsTo none back = back ≡ none
ReturnsTo (some pending) back =
    (link : Bool) × (back ≡ some (record { next = pending.next; link = link }))

module _ (b : Backend) (flow : Flow b) (out : Outside b) (provider_id : Text)
    (query : CallbackQuery) (user : Option b.User) where
  open b use {User, Value, Provider}
  open b.sessions use {Session}

  -- The browser is sent back with a refusal, and the session is left alone.
  abbrev pub Refuses : Option PendingLogin → Session → Response × Session → Type 0
  Refuses found s r =
      (x : Refusal) × (back : Option Return) × ReturnsTo found back
      × (r ≡ (refuse b flow x back, s))

  -- What must hold for `login` to be called with `resolved.user`, on the session `s`.
  pub record SignsIn (pending : PendingLogin) (s : Session) (r : Response × Session) : Type 0 where
    pub no_error : query.error ≡ none
    pub code : Text
    pub has_code : query.code ≡ some code
    pub provider : Provider
    pub enabled : lookup provider_id flow.providers ≡ some provider
    pub identity : ExternalIdentity Value
    pub identified : out.identify provider code pending ≡ ok identity
    pub link_needs_user : pending.link ≡ true → user ≢ none
    pub resolved : Resolved User
    pub resolves :
        out.resolve identity (record { current_user = user; link = pending.link }) ≡ ok resolved
    pub reply :
        r
        ≡ answer
            (redirect (with_query b.finish pending.next resolved.query))
            (refuse b flow (refusal failed) (some (return_to pending)))
            (b.login resolved.user s)

  -- Why the attempt `pending` is refused, with which code, and where the browser goes back to.
  pub data Denied (pending : PendingLogin) : Refusal → Option Return → Type 0 where
    by_person :
        query.error ≡ some (codes "access_denied")
        → Denied pending (refusal cancelled) (some (return_to pending))
    by_provider :
        (error : Text)
        → query.error ≡ some error
        → error ≢ codes "access_denied"
        → Denied pending (refusal provider_failed) (some (return_to pending))
    without_code :
        query.error ≡ none
        → query.code ≡ none
        → Denied pending (refusal provider_failed) (some (return_to pending))
    turned_off :
        query.error ≡ none
        → lookup provider_id flow.providers ≡ none
        → Denied pending (refusal provider_failed) (some (return_to pending))
    unidentified :
        (code : Text) (provider : Provider) (e : Text)
        → query.error ≡ none
        → query.code ≡ some code
        → lookup provider_id flow.providers ≡ some provider
        → out.identify provider code pending ≡ err e
        → Denied pending (refusal provider_failed) (some (return_to pending))
    lost_user :
        query.error ≡ none
        → pending.link ≡ true
        → user ≡ none
        → Denied pending (refusal signed_out) (some (return_signed_out pending.next))
    by_resolver :
        (code : Text) (provider : Provider) (identity : ExternalIdentity Value) (x : Refusal)
        → query.error ≡ none
        → query.code ≡ some code
        → lookup provider_id flow.providers ≡ some provider
        → out.identify provider code pending ≡ ok identity
        → out.resolve identity (record { current_user = user; link = pending.link }) ≡ err x
        → Denied pending x (some (return_to pending))

  abbrev pub Denies : PendingLogin → Session → Response × Session → Type 0
  Denies pending s r =
      (x : Refusal) × (back : Option Return) × Denied pending x back
      × SentBack b flow x back r.0
      × (r ≡ (refuse b flow x back, s))

  denies :
      (pending : PendingLogin) (s : Session) (x : Refusal) (back : Option Return)
      (r : Response × Session)
      → Denied pending x back
      → r ≡ (refuse b flow x back, s)
      → Denies pending s r
  denies pending s x back r why e = (
    x,
    back,
    why,
    subst (λ r. SentBack b flow x back r.0) (sym e) (refuse-SentBack b flow x back),
    e,
  )

  pub Denied-ReturnsTo :
      (pending : PendingLogin) (x : Refusal) (back : Option Return)
      → Denied pending x back
      → ReturnsTo (some pending) back
  Denied-ReturnsTo pending _ _ (by_person e) = (pending.link, refl)
  Denied-ReturnsTo pending _ _ (by_provider error e ne) = (pending.link, refl)
  Denied-ReturnsTo pending _ _ (without_code e c) = (pending.link, refl)
  Denied-ReturnsTo pending _ _ (turned_off e l) = (pending.link, refl)
  Denied-ReturnsTo pending _ _ (unidentified code provider x e c l i) = (pending.link, refl)
  Denied-ReturnsTo pending _ _ (lost_user e l u) = (false, refl)
  Denied-ReturnsTo pending x _ (by_resolver code provider identity _ e c l i r) =
      (pending.link, refl)

  lost_link :
      (link : Bool) (o : Option User) → (link && is_none b o) ≡ true → (link ≡ true) × (o ≡ none)
  lost_link true none h = (refl, refl)
  lost_link true (some u) h = ground arith
  lost_link false o h = ground arith

  sign_in_cases :
      (pending : PendingLogin) (code : Text) (provider : Provider)
      (identity : ExternalIdentity Value) (s : Session)
      → query.error ≡ none
      → query.code ≡ some code
      → lookup provider_id flow.providers ≡ some provider
      → out.identify provider code pending ≡ ok identity
      → SignsIn pending s (sign_in b flow out provider_id query user pending identity s)
        ⊎ Denies pending s (sign_in b flow out provider_id query user pending identity s)
  unfolding sign_in
  sign_in_cases pending code provider identity s p q l i =
      elim (Bool-cases (pending.link && is_none b user)) [
        | inl lost ↦
            let (links, gone) = lost_link pending.link user lost in
            inr (denies pending s _ _ _ (lost_user p links gone) (rw (lost, sign_in) refl))
        | inr fine ↦
            elim (Result-cases
              (out.resolve identity (record { current_user = user; link = pending.link }))) [
                | inl (resolved, e) ↦ inl (record {
                  no_error = p;
                  code = code;
                  has_code = q;
                  provider = provider;
                  enabled = l;
                  identity = identity;
                  identified = i;
                  link_needs_user = λ linking gone. ground arith;
                  resolved = resolved;
                  resolves = e;
                  reply = rw (fine, sign_in) (rw e);
                })
                | inr (x, e) ↦ inr (
                    denies pending s x _ _ (by_resolver code provider identity x p q l i e)
                      (rw (fine, sign_in) (rw e)))
              ]
      ]

  pub resume_of :
      (pending : PendingLogin) (s : Session) (code : Text) (provider : Provider)
      (identity : ExternalIdentity Value)
      → query.error ≡ none
      → query.code ≡ some code
      → lookup provider_id flow.providers ≡ some provider
      → out.identify provider code pending ≡ ok identity
      → resume b flow out provider_id query user pending s
        ≡ sign_in b flow out provider_id query user pending identity s
  unfolding resume
  resume_of pending s code provider identity p q l i = rw (p, resume) (rw q (rw l (rw i)))

  resume_error :
      (pending : PendingLogin) (s : Session) (error : Text)
      → query.error ≡ some error
      → Denies pending s (resume b flow out provider_id query user pending s)
  unfolding resume
  resume_error pending s error p = elim (Bool-cases (error == codes "access_denied")) [
    | inl own ↦
        denies pending s _ _ _
          (by_person (p ∙ ap some ((==_iff error (codes "access_denied")).0 own)))
          (rw (p, resume) (rw own refl))
    | inr other ↦
        denies pending s _ _ _
          (by_provider error p
            (λ e. ground (arith, ==_iff error (codes "access_denied"), other, e)))
          (rw (p, resume) (rw other refl))
  ]

  pub resume_cases :
      (pending : PendingLogin) (s : Session)
      → SignsIn pending s (resume b flow out provider_id query user pending s)
        ⊎ Denies pending s (resume b flow out provider_id query user pending s)
  unfolding resume
  resume_cases pending s =
      go query.error refl query.code refl (lookup provider_id flow.providers) refl
    where
      go :
          (error : Option Text)
          → query.error ≡ error
          → (code : Option Text) → query.code ≡ code
          → (provider : Option Provider) → lookup provider_id flow.providers ≡ provider
          → SignsIn pending s (resume b flow out provider_id query user pending s)
            ⊎ Denies pending s (resume b flow out provider_id query user pending s)
      go (some error) p code q provider l = inr (resume_error pending s error p)
      go none p none q provider l =
          inr (denies pending s _ _ _ (without_code p q) (rw (p, resume) (rw q)))
      go none p (some code) q none l =
          inr (denies pending s _ _ _ (turned_off p l) (rw (p, resume) (rw q (rw l))))
      go none p (some code) q (some provider) l =
          elim (Result-cases (out.identify provider code pending)) [
            | inl (identity, i) ↦
                rw (resume_of pending s code provider identity p q l i)
                  (sign_in_cases pending code provider identity s p q l i)
            | inr (x, i) ↦ inr (
                denies pending s _ _ _ (unidentified code provider x p q l i)
                  (rw (p, resume) (rw q (rw l (rw i)))))
          ]

  pub sign_in_of :
      (pending : PendingLogin) (identity : ExternalIdentity Value) (resolved : Resolved User)
      (s : Session)
      → (pending.link && is_none b user) ≡ false
      → out.resolve identity (record { current_user = user; link = pending.link }) ≡ ok resolved
      → sign_in b flow out provider_id query user pending identity s
        ≡ answer
            (redirect (with_query b.finish pending.next resolved.query))
            (refuse b flow (refusal failed) (some (return_to pending)))
            (b.login resolved.user s)
  unfolding sign_in
  sign_in_of pending identity resolved s k r = rw (k, sign_in) (rw r)
