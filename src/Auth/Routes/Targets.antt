-- ===== src/Auth/Routes/Targets.antt =====
-- Where the refusals of crates/muxa-auth/src/routes.rs, and what follows a sign-in, send the browser.
use muxa.Prelude.{◌≡◌, refl, Option, none, some, Bool, true, false, List, All}
use muxa.Prelude.Text.{Text}
use muxa.Prelude.Effects.{Result, ok, err}
use muxa.Auth.Redirect.Query.{IsKept, IsLocal, with_query-IsLocal}
use muxa.Auth.Pending.{PendingLogin}
use muxa.Auth.Identity.{Refusal}
use muxa.Auth.Routes.{Backend, Flow, Response, redirect, Return, answer, refuse}
use muxa.Auth.Routes.Resume.{ReturnsTo}

-- The response is a redirect to a path of this site.
abbrev pub StaysOnSite : Response → Type 0
StaysOnSite r = (target : Text) × (r ≡ redirect target) × IsLocal target

abbrev pub IsLocalNext : Option PendingLogin → Type 0
IsLocalNext none = Unit
IsLocalNext (some pending) = IsLocal pending.next

module _ (b : Backend) (flow : Flow b)
    (kept : (pairs : List (Text × Text)) → All IsKept (b.finish pairs))
    (home : IsLocal flow.sign_in_path) where
  refuse-none : (x : Refusal) → StaysOnSite (refuse b flow x none)
  unfolding refuse
  refuse-none x = (_, refl, with_query-IsLocal b.finish kept flow.sign_in_path _ home)

  pub refuse-some :
      (x : Refusal) (next : Text) (link : Bool)
      → IsLocal next
      → StaysOnSite (refuse b flow x (some (record { next = next; link = link })))
  unfolding refuse
  refuse-some x next true h = (_, refl, with_query-IsLocal b.finish kept next _ h)
  refuse-some x next false h = (_, refl, with_query-IsLocal b.finish kept flow.sign_in_path _ home)

  pub refuse-StaysOnSite :
      (x : Refusal) (found : Option PendingLogin) (back : Option Return)
      → ReturnsTo found back
      → IsLocalNext found
      → StaysOnSite (refuse b flow x back)
  refuse-StaysOnSite x none back to h = rw to (refuse-none x)
  refuse-StaysOnSite x (some pending) back (link, to) h = rw to (refuse-some x pending.next link h)

  pub answer-StaysOnSite :
      {E S : Type 0} (good bad : Response) (w : Result E Unit × S)
      → StaysOnSite good
      → StaysOnSite bad
      → StaysOnSite (answer good bad w).0
  answer-StaysOnSite good bad (ok _, s) h k = h
  answer-StaysOnSite good bad (err _, s) h k = k
