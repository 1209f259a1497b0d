-- ===== src/Auth/Routes/Tests.antt =====
-- Runs of the handlers of crates/muxa-auth/src/routes.rs, over a session in memory.
use muxa.Auth.Redirect.Query.{IsKept, IsLocal-of_IsOnSite}
use muxa.Prelude.{
  All, map, inr, Bool-cases, eqb, ◌||◌, if◌then◌else◌, ℕ, ◌≡◌, ◌⊎◌, refl, false, Option, none, some,
  List, [], ◌∷◌, ◌++◌, arith, inl,
}
use muxa.Prelude.Text.{Text, codes, str_ops, is_control}
use muxa.Prelude.Effects.{ok}
use muxa.Prelude.Assoc.{lookup}
use muxa.Auth.Redirect.{on_site, safe_next, with_query}
use muxa.Auth.Redirect.Safety.{IsOnSite-of_test}
use muxa.Auth.Pending.{PendingLogin, PendingMap, SessionOps, remembered, taken, remember, take}
use muxa.Auth.Pending.Sessions.{IsSession}
use muxa.Auth.Identity.{ExternalIdentity}
use muxa.Auth.Routes.{
  Authorization, redirect, router, get, post, Backend, StartQuery, CallbackQuery, Flow, Outside,
  Return, new_attempt, refuse, begin_sign_in, start, callback, take_attempt, sign_out,
}
use muxa.Auth.Routes.Start.{Starts, StartRefuses, start_cases}
use muxa.Auth.Routes.Resume.{Refuses}
use muxa.Auth.Routes.Callback.{Gives, callback_cases}
use muxa.Auth.Routes.Replay.{IsBackend, callback_replay}
use muxa.Auth.Routes.RoundTrip.{begin-callback}
use muxa.Auth.Routes.Targets.{StaysOnSite}
use muxa.Auth.Routes.OnSite.{IsOnSiteFlow}
use muxa.Auth.Routes.Visits.{Visits, Visit, Visits-stay_on_site}

-- The map of attempts and the signed-in user.
abbrev memory : SessionOps
memory = record {
  Session = Option PendingMap × Option ℕ;
  Error = Unit;
  get = λ s. ok (s.0);
  insert = λ m s. (ok tt, (some m, s.1));
  remove = λ s. (ok tt, (none, s.1));
}

abbrev plain : List (Text × Text) → Text
plain [] = []
plain ((k, v) ∷ []) = k ++ b'=' ∷ v
plain ((k, v) ∷ (j, w) ∷ pairs) = k ++ b'=' ∷ (v ++ b'&' ∷ (j ++ b'=' ∷ w))

-- What may not stand in a query string, as `%` alone.
abbrev escaped : ℕ → ℕ
escaped c = if is_control c || eqb c b'\\' then b'%' else c

escaped-IsKept : (c : ℕ) → IsKept (escaped c)
escaped-IsKept c = elim (Bool-cases (is_control c || eqb c b'\\')) [
  | inl bad ↦ rw bad (ground arith, refl)
  | inr good ↦ rw good (ground (arith, good), ground (arith, good))
]

map-escaped-IsKept : (s : Text) → All IsKept (map escaped s)
map-escaped-IsKept [] = tt
map-escaped-IsKept (c ∷ s) = (escaped-IsKept c, map-escaped-IsKept s)

abbrev site : Backend
site = record {
  sessions = memory;
  User = ℕ;
  Value = Unit;
  Provider = Unit;
  finish = λ pairs. map escaped (plain pairs);
  login = λ u s. (ok tt, (s.0, some u));
  logout = λ s. (ok tt, (none, none));
}

memory-IsSession : IsSession memory
memory-IsSession = record {
  get-insert = λ map s s' e. ground arith;
  get-remove = λ s s' e. ground arith;
  get-insert_failed = λ map s s' x e. ground arith;
  get-remove_failed = λ s s' x e. ground arith;
}

site-IsBackend : IsBackend site
site-IsBackend = record {
  session = memory-IsSession;
  login_keeps = λ u s. refl;
  logout_clears = λ s. inl refl;
}

abbrev ogs : Text
ogs = codes "ogs"

abbrev flow : Flow site
flow = record {
  providers = (ogs, tt) ∷ [];
  sign_in_path = codes "/sign-in";
  default_next = codes "/";
  error_param = codes "auth_error";
}

abbrev granted : Authorization
granted = record {
  url = codes "https://ogs/authorize";
  state = codes "st";
  pkce_verifier = none;
  nonce = none;
}

abbrev person : ExternalIdentity Unit
person = record {
  provider = ogs;
  subject = codes "42";
  email = none;
  email_verified = false;
  name = none;
  profile = tt;
}

-- A provider that grants everything, and a resolver that takes everybody for user 7.
abbrev at_time : ℕ → Outside site
at_time now = record {
  authorize = λ p. ok granted;
  identify = λ p code pending. ok person;
  resolve = λ identity ctx. ok (record { user = 7; query = [] });
  now = now;
  now_later = now;
}

abbrev empty : Option PendingMap × Option ℕ
empty = (none, none)

abbrev games : StartQuery
games = record { next = some (codes "/games"); link = none }

abbrev with_code : CallbackQuery
with_code = record { code = some (codes "c"); state = some (codes "st"); error = none }

abbrev to_games : Return
to_games = record { next = codes "/games"; link = false }

abbrev waiting : Option PendingMap × Option ℕ
waiting = (some ((codes "st", new_attempt 100 ogs to_games granted) ∷ []), none)

handlers : Unit {0}
unfolding start callback refuse sign_out router remembered taken remember take lookup safe_next
    with_query str_ops
handlers = tt

start_tests :
    (start site flow (at_time 100) ogs games none empty
      ≡ (redirect (codes "https://ogs/authorize"), waiting))
    × (start site flow (at_time 100) (codes "x") games none empty
        ≡ (redirect (codes "/sign-in?auth_error=unavailable&next=/games"), empty))
    × (start site flow
          (at_time 100)
          ogs
          (record { next = none; link = some (codes "1") })
          none
          empty
        ≡ (redirect (codes "/sign-in?auth_error=signed_out&next=/"), empty))
unfolding handlers
start_tests = (refl, refl, refl)

callback_tests :
    (callback site flow (at_time 200) ogs with_code none waiting
      ≡ (redirect (codes "/games"), (none, some 7)))
    × (callback site flow (at_time 200) ogs with_code none empty
        ≡ (redirect (codes "/sign-in?auth_error=expired"), empty))
    × (callback site flow (at_time 700) ogs with_code none waiting
        ≡ (redirect (codes "/sign-in?auth_error=expired"), empty))
    × (callback site flow (at_time 200) (codes "x") with_code none waiting
        ≡ (redirect (codes "/sign-in?auth_error=expired"), empty))
    × (callback site flow
          (at_time 200)
          ogs
          (record with_code { error = some (codes "access_denied") })
          none
          waiting
        ≡ (redirect (codes "/sign-in?auth_error=cancelled&next=/games"), empty))
unfolding handlers
callback_tests = (refl, refl, refl, refl, refl)

router_tests :
    router (codes "/auth/")
    ≡ (get, codes "/auth/{provider}/start")
      ∷ (get, codes "/auth/{provider}/callback")
      ∷ (post, codes "/auth/sign-out")
      ∷ []
unfolding handlers
router_tests = refl

start_cases_example :
    Starts site flow
      (at_time 100)
      ogs
      games
      none
      empty
      (start site flow (at_time 100) ogs games none empty)
    ⊎ StartRefuses site flow
        (at_time 100)
        ogs
        games
        none
        empty
        (start site flow (at_time 100) ogs games none empty)
start_cases_example = start_cases site flow (at_time 100) ogs games none empty

callback_cases_example :
    Gives site flow
      (at_time 200)
      ogs
      with_code
      none
      waiting
      (take_attempt site flow (at_time 200) ogs with_code none waiting).1
      (callback site flow (at_time 200) ogs with_code none waiting)
callback_cases_example = callback_cases site flow (at_time 200) ogs with_code none waiting

abbrev stored : PendingLogin
stored = new_attempt 100 ogs to_games granted

callback_replay_example :
    Refuses site flow
      (at_time 201)
      ogs
      with_code
      none
      none
      (none, some 7)
      (redirect (codes "/sign-in?auth_error=expired"), (none, some 7))
unfolding handlers
callback_replay_example =
    callback_replay site site-IsBackend flow (at_time 200) (at_time 201) ogs ogs with_code with_code
      none none waiting stored empty refl refl

begin-callback_example :
    (begin_sign_in site flow (at_time 100) ogs to_games granted empty
      ≡ (redirect (codes "https://ogs/authorize"), waiting))
    × (callback site flow (at_time 200) ogs with_code none waiting
        ≡ (redirect (codes "/games"), (none, some 7)))
unfolding handlers
begin-callback_example =
    begin-callback site site-IsBackend flow (at_time 100) (at_time 200) ogs to_games granted
      with_code none empty waiting empty (some stored) (codes "c") tt person
      (record { user = 7; query = [] }) tt refl refl refl refl refl refl refl refl refl refl

flow-IsOnSiteFlow : IsOnSiteFlow site flow
unfolding on_site str_ops
flow-IsOnSiteFlow = record {
  home = IsLocal-of_IsOnSite (codes "/sign-in") (IsOnSite-of_test (codes "/sign-in") refl);
  fallback = IsOnSite-of_test (codes "/") refl;
  kept = λ pairs. map-escaped-IsKept (plain pairs);
}

started : Visits site site-IsBackend flow flow-IsOnSiteFlow empty waiting
unfolding handlers
started = Visits.next Visits.here (Visit.starts empty (at_time 100) ogs games none)

Visits-stay_on_site_example :
    StaysOnSite (callback site flow (at_time 200) ogs with_code none waiting).0
Visits-stay_on_site_example =
    Visits-stay_on_site site site-IsBackend flow flow-IsOnSiteFlow (at_time 200) ogs with_code none
      refl started
