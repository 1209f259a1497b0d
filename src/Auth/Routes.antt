-- ===== src/Auth/Routes.antt =====
-- crates/muxa-auth/src/routes.rs: the handlers of the sign-in routes.
--
-- What is not in the repository is a parameter. `Backend` has the session store, axum-login's
-- `login` and `logout`, the app's user type and the query serializer. `Outside` has what a request
-- meets beyond the process: what the provider's two flows and the app's resolver answer, and the
-- readings of the clock; it may differ from request to request.
pub mod Refused
pub mod Start
pub mod Resume
pub mod Callback
pub mod Replay
mod Targets
pub mod RoundTrip
pub mod OnSite
pub mod Visits
mod Tests
use muxa.Prelude.{
  ℕ, Bool, true, false, ◌||◌, ◌&&◌, Option, none, some, List, [], ◌∷◌, ◌++◌, if◌then◌else◌, eqb,
}
use muxa.Prelude.Text.{Text, codes, ◌==◌, is_some, trim_end}
use muxa.Prelude.Effects.{Result, ok, err}
use muxa.Prelude.Assoc.{Assoc, lookup}
use muxa.Auth.Redirect.{safe_next, with_query}
use muxa.Auth.Pending.{PendingLogin, SessionOps, remember, take}
use muxa.Auth.Identity.{
  ExternalIdentity, ResolveContext, Resolved, Refusal, refusal, cancelled, expired, provider_failed,
  unavailable, signed_out, failed,
}

-- The URL to send the browser to, and what to remember until it comes back.
pub record Authorization : Type 0 where
  pub url : Text
  pub state : Text
  pub pkce_verifier : Option Text
  pub nonce : Option Text

pub data Response : Type 0 where
  redirect : Text → Response
  status : ℕ → Response

pub data Method : Type 0 where
  get post : Method

-- The routes under `mount`, with their methods.
unfoldable pub router : Text → List (Method × Text)
router mount =
    let root = trim_end (eqb b'/') mount in
    (get, root ++ codes "/{provider}/start")
    ∷ (get, root ++ codes "/{provider}/callback")
    ∷ (post, root ++ codes "/sign-out")
    ∷ []

pub record Backend : Type 1 where
  pub sessions : SessionOps
  pub User : Type 0
  pub Value : Type 0
  pub Provider : Type 0
  pub finish : List (Text × Text) → Text
  pub login : User → sessions.Session → Result sessions.Error Unit × sessions.Session
  pub logout : sessions.Session → Result sessions.Error Unit × sessions.Session

pub record StartQuery : Type 0 where
  pub next : Option Text
  pub link : Option Text

pub record CallbackQuery : Type 0 where
  pub code : Option Text
  pub state : Option Text
  pub error : Option Text

-- Where a sign-in goes back to, and whether it was a link.
pub record Return : Type 0 where
  pub next : Text
  pub link : Bool

module _ (b : Backend) where
  open b use {User, Value, Provider}
  open b.sessions use {Session, Error}

  pub record Flow : Type 0 where
    pub providers : Assoc Provider
    pub sign_in_path : Text
    pub default_next : Text
    pub error_param : Text

  pub record Outside : Type 0 where
    pub authorize : Provider → Result Text Authorization
    pub identify : Provider → Text → PendingLogin → Result Text (ExternalIdentity Value)
    pub resolve : ExternalIdentity Value → ResolveContext User → Result Refusal (Resolved User)
    pub now : ℕ
    pub now_later : ℕ

abbrev pub return_to : PendingLogin → Return
return_to pending = record { next = pending.next; link = pending.link }

-- Back to the sign-in page, for a link that lost its user.
abbrev pub return_signed_out : Text → Return
return_signed_out next = record { next = next; link = false }

abbrev pub new_attempt : ℕ → Text → Return → Authorization → PendingLogin
new_attempt now provider_id to a = record {
  provider = provider_id;
  state = a.state;
  pkce_verifier = a.pkce_verifier;
  nonce = a.nonce;
  next = to.next;
  link = to.link;
  created_at = now;
}

abbrev pub param_or : Option Text → Text → Text
param_or (some param) fallback = param
param_or none fallback = fallback

-- The handler's last step over what a write left: one answer where it succeeded, another where not.
abbrev pub answer : {E S : Type 0} → Response → Response → Result E Unit × S → Response × S
answer good bad (ok _, s) = (good, s)
answer good bad (err _, s) = (bad, s)

module _ (b : Backend) where
  open b use {User, Value, Provider}
  open b.sessions use {Session, Error}

  -- Send the browser back with `refusal`: to `next` for a link, else to the sign-in page.
  unfoldable pub refuse : Flow b → Refusal → Option Return → Response
  refuse flow r back =
      let param = param_or r.param flow.error_param in
      let code : Text × Text = (param, r.code) in
      elim back [
        | none ↦ redirect (with_query b.finish flow.sign_in_path (code ∷ []))
        | some to ↦
            if to.link
            then redirect (with_query b.finish to.next (code ∷ []))
            else redirect
                (with_query b.finish flow.sign_in_path (code ∷ (codes "next", to.next) ∷ []))
      ]

  -- The part of `start` behind the provider's authorization.
  unfoldable pub begin_sign_in :
      Flow b → Outside b → Text → Return → Authorization → Session → Response × Session
  begin_sign_in flow out provider_id to a session =
      answer (redirect a.url) (refuse flow (refusal failed) (some to))
        (remember b.sessions out.now_later (new_attempt out.now provider_id to a) session)

  abbrev pub asks_link : Option Text → Bool
  asks_link none = false
  asks_link (some value) = value == codes "1" || value == codes "true"

  abbrev pub is_none : {A : Type 0} → Option A → Bool
  is_none none = true
  is_none (some a) = false

  unfoldable pub start :
      Flow b → Outside b → Text → StartQuery → Option User → Session → Response × Session
  unfolding begin_sign_in
  start flow out provider_id query user session =
      let next = safe_next query.next flow.default_next in
      let to : Return = record { next = next; link = asks_link query.link } in
      elim (lookup provider_id flow.providers) [
        | none ↦ (refuse flow (refusal unavailable) (some to), session)
        | some provider ↦
            if to.link && is_none user
            then (refuse flow (refusal signed_out) (some (return_signed_out next)), session)
            else elim (out.authorize provider) [
              | err _ ↦ (refuse flow (refusal provider_failed) (some to), session)
              | ok a ↦ begin_sign_in flow out provider_id to a session
            ]
      ]

  module _ (flow : Flow b) (out : Outside b) (provider_id : Text) (query : CallbackQuery)
      (user : Option User) where
    -- The part of `callback` behind the provider's identification.
    unfoldable pub sign_in : PendingLogin → ExternalIdentity Value → Session → Response × Session
    sign_in pending identity session =
        let to = return_to pending in
        if pending.link && is_none user
        then (refuse flow (refusal signed_out) (some (return_signed_out pending.next)), session)
        else elim (out.resolve identity (record { current_user = user; link = pending.link })) [
          | err r ↦ (refuse flow r (some to), session)
          | ok resolved ↦
              answer (redirect (with_query b.finish pending.next resolved.query))
                (refuse flow (refusal failed) (some to)) (b.login resolved.user session)
        ]

    abbrev pub error_code : Text → Text
    error_code error = if error == codes "access_denied" then cancelled else provider_failed

    -- The part of `callback` behind the attempt that was found.
    unfoldable pub resume : PendingLogin → Session → Response × Session
    unfolding sign_in
    resume pending session =
        let to = return_to pending in
        let fail : Response = refuse flow (refusal provider_failed) (some to) in
        elim query.error [
          | some error ↦ (refuse flow (refusal (error_code error)) (some to), session)
          | none ↦ elim query.code [
            | none ↦ (fail, session)
            | some code ↦ elim (lookup provider_id flow.providers) [
              | none ↦ (fail, session)
              | some provider ↦ elim (out.identify provider code pending) [
                | err _ ↦ (fail, session)
                | ok identity ↦ sign_in pending identity session
              ]
            ]
          ]
        ]

    unfoldable pub check_attempt : Result Error (Option PendingLogin) × Session → Response × Session
    unfolding resume
    check_attempt (err _, session) = (refuse flow (refusal failed) none, session)
    check_attempt (ok none, session) = (refuse flow (refusal expired) none, session)
    check_attempt (ok (some pending), session) =
        if pending.provider == provider_id
        then resume pending session
        else (refuse flow (refusal expired) none, session)

    unfoldable pub take_attempt : Session → Result Error (Option PendingLogin) × Session
    take_attempt session = elim query.state [
      | none ↦ (ok none, session)
      | some state ↦ take b.sessions out.now state session
    ]

    unfoldable pub callback : Session → Response × Session
    unfolding check_attempt take_attempt
    callback session = check_attempt (take_attempt session)

  unfoldable pub sign_out : Session → Response × Session
  sign_out session = answer (status 204) (status 500) (b.logout session)
