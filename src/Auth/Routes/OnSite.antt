-- ===== src/Auth/Routes/OnSite.antt =====
-- No open redirect: where the handlers of crates/muxa-auth/src/routes.rs send the browser.

use muxa.Prelude.{
  ℕ, ◌≡◌, ◌≢◌, refl, inl, inr, Option, none, some, [], arith, Option-cases, Bool-cases, List, All,
}
use muxa.Prelude.Text.{Text, ◌==◌}
use muxa.Prelude.Text.Laws.{==_iff}
use muxa.Prelude.Assoc.{lookup}
use muxa.Auth.Redirect.Safety.{IsOnSite}
use muxa.Auth.Redirect.Query.{IsKept, IsLocal, with_query-IsLocal}
use muxa.Auth.Pending.{PendingLogin, PendingMap, remembered, taken}
use muxa.Auth.Pending.Attempts.{taken_lem, remembered-IsMap, remembered-keeps}
use muxa.Auth.Pending.Sessions.{attempts, attempts-take}
use muxa.Auth.Pending.SingleUse.{take-found}
use muxa.Auth.Pending.Reach.{IsWellFormed, remembered-IsWellFormed, taken-IsWellFormed}
use muxa.Auth.Identity.{refusal, failed}
use muxa.Auth.Routes.{Backend, Flow, Outside, CallbackQuery, take_attempt, callback}
use muxa.Auth.Routes.Targets.{StaysOnSite, refuse-StaysOnSite, answer-StaysOnSite, refuse-some}
use muxa.Auth.Routes.Callback.{callback_outcomes}
use muxa.Auth.Routes.Replay.{IsBackend, attempts-callback}

-- What the configuration has to get right, and what `form_urlencoded` documents of its serializer: it
-- writes no control characters and no backslashes.
pub record IsOnSiteFlow (b : Backend) (flow : Flow b) : Type 0 where
  pub home : IsLocal flow.sign_in_path
  pub fallback : IsOnSite flow.default_next
  pub kept : (pairs : List (Text × Text)) → All IsKept (b.finish pairs)

-- Every attempt of the session goes back to a path of this site.
pub record IsOnSiteMap (m : PendingMap) : Type 0 where
  pub well_formed : IsWellFormed m
  pub on_site : (j : Text) (a : PendingLogin) → lookup j m ≡ some a → IsLocal a.next

pub remembered-IsOnSiteMap :
    (now : ℕ) (p : PendingLogin) (m : PendingMap)
    → IsLocal p.next
    → IsOnSiteMap m
    → IsOnSiteMap (remembered now p m)
remembered-IsOnSiteMap now p m h k = record {
  well_formed = remembered-IsWellFormed now p m k.well_formed;
  on_site = λ j a at. elim (Bool-cases (j == p.state)) [
    | inl same ↦
        let found : lookup p.state (remembered now p m) ≡ some p =
          (remembered-IsMap now p m k.well_formed.unique).2 in
        let is_p : a ≡ p = ground (arith, found, at, same, ==_iff j p.state) in rw is_p h
    | inr other ↦
        let ne : j ≢ p.state = λ e. ground (arith, ==_iff j p.state) in
        k.on_site j a (remembered-keeps now p m k.well_formed.unique j a ne at).0
  ];
}

taken-IsOnSiteMap : (state : Text) (m : PendingMap) → IsOnSiteMap m → IsOnSiteMap (taken state m).1
taken-IsOnSiteMap state m k = record {
  well_formed = taken-IsWellFormed state m k.well_formed;
  on_site = λ j a at. k.on_site j a (ground (arith, (taken_lem state m).1 j, at));
}

pub empty-IsOnSiteMap : IsOnSiteMap []
unfolding lookup
empty-IsOnSiteMap = record {
  well_formed = record { unique = tt; bounded = omega arith; keyed = λ j a e. cc };
  on_site = λ j a e. cc;
}

module _ (b : Backend) (laws : IsBackend b) (flow : Flow b) (local : IsOnSiteFlow b flow) where
  open b use {User}
  open b.sessions use {Session}

  abbrev pub IsOnSiteSession : Session → Type 0
  IsOnSiteSession s = IsOnSiteMap (attempts b.sessions s)

  take_attempt-IsOnSiteSession :
      (out : Outside b) (provider_id : Text) (query : CallbackQuery) (user : Option User)
      (s : Session)
      → IsOnSiteSession s
      → IsOnSiteSession (take_attempt b flow out provider_id query user s).1
  unfolding take_attempt
  take_attempt-IsOnSiteSession out provider_id query user s h = elim (Option-cases query.state) [
    | inl missing ↦ rw (missing, take_attempt) h
    | inr (state, asked) ↦
        rw (asked, take_attempt)
          (elim (attempts-take b.sessions laws.session out.now state s) [
            | inl e ↦ rw e (taken-IsOnSiteMap state _ h)
            | inr e ↦ rw e h
          ])
  ]

  pub callback-IsOnSiteSession :
      (out : Outside b) (provider_id : Text) (query : CallbackQuery) (user : Option User)
      (s : Session)
      → IsOnSiteSession s
      → IsOnSiteSession (callback b flow out provider_id query user s).1
  callback-IsOnSiteSession out provider_id query user s h =
      rw (attempts-callback b laws flow out provider_id query user s)
        (take_attempt-IsOnSiteSession out provider_id query user s h)

  -- With an on-site configuration and session, a callback answers with a redirect to a path of this
  -- site, whatever the request, the provider and the resolver say.
  pub callback-StaysOnSite :
      (out : Outside b) (provider_id : Text) (query : CallbackQuery) (user : Option User)
      (s : Session)
      → IsOnSiteSession s
      → StaysOnSite (callback b flow out provider_id query user s).0
  callback-StaysOnSite out provider_id query user s h =
      elim (callback_outcomes b flow out provider_id query user s) [
        | inl (x, back, to, e) ↦
            rw e (refuse-StaysOnSite b flow local.kept local.home x none back to tt)
        | inr (pending, t, result) ↦
            let next : IsLocal pending.next =
              h.on_site t.state pending
                (take-found b.sessions laws.session out.now t.state s _ pending t.took).0 in
            elim result [
              | inl signs ↦ rw (signs.reply) (
                  answer-StaysOnSite b flow local.kept local.home _ _
                    (b.login signs.resolved.user _)
                    (
                      _,
                      refl,
                      with_query-IsLocal b.finish local.kept pending.next signs.resolved.query next,
                    )
                    (refuse-some b flow local.kept local.home (refusal failed) pending.next
                      pending.link next))
              | inr (x, back, to, e) ↦
                  rw e
                    (refuse-StaysOnSite b flow local.kept local.home x (some pending) back to next)
            ]
      ]
