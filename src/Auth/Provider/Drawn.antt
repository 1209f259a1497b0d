-- ===== src/Auth/Provider/Drawn.antt =====
-- crates/muxa-auth/src/provider.rs: what an authorization carries to the callback.
use muxa.Prelude.{◌≡◌, refl, Bool, true, false, Option, none, some, if◌then◌else◌}
use muxa.Prelude.Text.{Text}
use muxa.Prelude.Effects.{Result, ok, err, ok_inj, err-ne-ok}
use mathlib.Core.Path.{subst}
use muxa.Auth.Routes.{Authorization}
use muxa.Auth.Provider.OAuth2
use muxa.Auth.Provider.Oidc
use muxa.Auth.Provider.OAuth2.{OAuth, Wire, OAuth2Provider}
use muxa.Auth.Provider.Oidc.{OpenId, Client, OidcProvider, Cached, Clock, with_client}
use muxa.Auth.Provider.Dispatch.{Provider, plain, openid, Drawn, authorize, Remembers}

pkce_drawn :
    (pkce : Bool) (c v : Text)
    → let drawn : Option Text × Option Text = if pkce then (some c, some v) else (none, none) in
      drawn.1 ≡ (if pkce then some v else none)
pkce_drawn true c v = refl
pkce_drawn false c v = refl

plain-Remembers :
    (o : OAuth) (i : OpenId) (wire : Wire o) (drawn : Drawn) (p : OAuth2Provider o)
    → Remembers o i drawn (OAuth2.authorize o wire drawn.verifier drawn.state p) (plain p)
unfolding OAuth2.authorize
plain-Remembers o i wire drawn p =
    (refl, pkce_drawn p.pkce (o.challenge_of drawn.verifier) drawn.verifier, refl)

openid-Remembers :
    (o : OAuth) (i : OpenId) (drawn : Drawn) (p : OidcProvider i) (cache : Cached i)
    (r : Result Text (Client i) × Cached i) (a : Authorization)
    → (with_client i r (λ current cache'. (
      ok record {
        url =
            i.authorize_url current p.scopes
              (i.challenge_of drawn.verifier)
              drawn.state
              drawn.nonce;
        state = drawn.state;
        pkce_verifier = some drawn.verifier;
        nonce = some drawn.nonce;
      },
      cache',
    ))).0
      ≡ ok a
    → Remembers o i drawn a (openid p cache)
openid-Remembers o i drawn p cache (err m, cache') a h = absurd (err-ne-ok h)
openid-Remembers o i drawn p cache (ok current, cache') a h =
    subst (λ b. Remembers o i drawn b (openid p cache)) (ok_inj h) (refl, refl, refl)

-- An authorization carries the state drawn, for the callback to compare; one of an OpenID Connect
-- provider also carries the verifier and the nonce drawn, so that its callback never lacks a nonce;
-- one of a plain provider carries the verifier drawn exactly where PKCE is on, and no nonce.
authorize-Remembers :
    (o : OAuth) (i : OpenId) (wire : Wire o) (drawn : Drawn) (clock : Clock) (p : Provider o i)
    (a : Authorization)
    → (authorize o i wire drawn clock p).0 ≡ ok a
    → Remembers o i drawn a p
unfolding authorize Oidc.authorize
authorize-Remembers o i wire drawn clock (plain p) a h =
    subst (λ b. Remembers o i drawn b (plain p)) (ok_inj h) (plain-Remembers o i wire drawn p)
authorize-Remembers o i wire drawn clock (openid p cache) a h =
    openid-Remembers o i drawn p cache (Oidc.client i p false clock cache) a h
