-- ===== src/Auth/Provider/Tests.antt =====
-- Sign-ins at two providers: a plain one whose profile has a numeric id, and an OpenID Connect one
-- whose signing key was rotated after discovery.
use muxa.Prelude.{ℕ, ◌≡◌, refl, true, false, none, some, [], ◌∷◌, ◌++◌}
use muxa.Prelude.Text.{Text, codes, str_ops}
use muxa.Prelude.Effects.{ok, err}
use muxa.Auth.Identity.{ExternalIdentity}
use muxa.Auth.Pending.{PendingLogin}
use muxa.Auth.Routes.{Authorization}
use muxa.Auth.Provider.{Scalar, number, error_chain}
use muxa.Auth.Provider.OAuth2
use muxa.Auth.Provider.Oidc
use muxa.Auth.Provider.OAuth2.{OAuth, Wire, OAuth2Provider, Client, basic_auth}
use muxa.Auth.Provider.Oidc.{OidcClient, OpenId, OidcProvider, Cached, Clock}
use muxa.Auth.Provider.Sample.{oauth, open_id}
use muxa.Auth.Provider.Dispatch.{Drawn, authorize}
use muxa.Auth.Provider.UserInfo.{Seen, identify-Seen}
use muxa.Auth.Provider.Discovery.{ClientOf, client_cases}
use muxa.Auth.Provider.Identified.{VerifiedIdentity, identify-VerifiedIdentity}

providers : Unit {0}
unfolding OAuth2.subject OAuth2.string_field OAuth2.authorize OAuth2.identify Oidc.cached_client
    Oidc.discover_client Oidc.client Oidc.authorize Oidc.redeem Oidc.check_claims Oidc.check_hash
    Oidc.identify authorize error_chain str_ops
providers = tt

abbrev wire : Wire oauth
wire = record {
  authorize_url = λ client scopes challenge state. client.auth_url ++ state;
  exchange_code = λ client code verifier. ok (codes "token");
  userinfo = λ url token. ok (codes "42");
}

abbrev github : OAuth2Provider oauth
github = record {
  id = codes "github";
  client = record {
    id = codes "muxa";
    auth_url = codes "https://github/auth?";
    token_url = codes "https://github/token";
    redirect = codes "https://app/auth/github/callback";
    auth_type = basic_auth;
    secret = none;
  };
  scopes = [];
  pkce = true;
  userinfo_url = codes "https://github/user";
  subject_field = codes "id";
  email_field = some (codes "email");
  name_field = none;
}

abbrev acme : OidcProvider open_id
acme = record {
  id = codes "acme";
  issuer = codes "https://acme";
  client_id = codes "muxa";
  client_secret = [];
  redirect = codes "https://app/auth/acme/callback";
  scopes = [];
  ttl = 100;
}

abbrev acme_client : ℕ → OidcClient ℕ Text
acme_client time = record {
  metadata = time;
  client_id = codes "muxa";
  client_secret = none;
  redirect = codes "https://app/auth/acme/callback";
}

abbrev at_time : ℕ → Clock
at_time t = record { read_at = t; discover_at = t; built_at = t }

abbrev old_cache : Cached open_id
old_cache = some (acme_client 10, 10)

abbrev pending : PendingLogin
pending = record {
  provider = codes "acme";
  state = codes "s";
  pkce_verifier = some (codes "v");
  nonce = some (codes "n");
  next = codes "/";
  link = false;
  created_at = 20;
}

abbrev acme_identity : ExternalIdentity Text
acme_identity = record {
  provider = codes "acme";
  subject = codes "subject";
  email = none;
  email_verified = false;
  name = none;
  profile = codes "n";
}

rediscovers_once :
    Oidc.identify open_id (codes "c") pending acme (at_time 30) (at_time 50) old_cache
    ≡ (ok acme_identity, some (acme_client 50, 50))
unfolding providers
rediscovers_once = refl

still_refused :
    (Oidc.identify open_id (codes "c") pending acme (at_time 30) (at_time 60) old_cache).0
    ≡ err (codes "id token: signature")
unfolding providers
still_refused = refl

needs_nonce :
    (Oidc.identify open_id
      (codes "c")
      (record pending { nonce = none })
      acme
      (at_time 30)
      (at_time 50)
      old_cache).0
    ≡ err (codes "sign-in has no nonce")
unfolding providers
needs_nonce = refl

chains_causes :
    error_chain (record { message = codes "a"; sources = codes "b" ∷ codes "c" ∷ [] })
    ≡ codes "a: b: c"
unfolding providers
chains_causes = refl

client_cases_example :
    ClientOf open_id acme false
      (at_time 200)
      old_cache
      (Oidc.client open_id acme false (at_time 200) old_cache)
client_cases_example = client_cases open_id acme false (at_time 200) old_cache

identify-VerifiedIdentity_example :
    VerifiedIdentity open_id
      (codes "c")
      pending
      acme
      (at_time 30)
      (at_time 50)
      old_cache
      acme_identity
unfolding providers
identify-VerifiedIdentity_example =
    identify-VerifiedIdentity open_id (codes "c") pending acme (at_time 30) (at_time 50) old_cache
      acme_identity refl

abbrev github_identity : ExternalIdentity (Text × Scalar)
github_identity = record {
  provider = codes "github";
  subject = codes "42";
  email = none;
  email_verified = false;
  name = none;
  profile = (codes "id", number (codes "42"));
}

identify-Seen_example : Seen oauth wire (codes "c") pending github github_identity
unfolding providers
identify-Seen_example = identify-Seen oauth wire (codes "c") pending github github_identity refl

abbrev drawn : Drawn
drawn = record { verifier = codes "v"; state = codes "s"; nonce = codes "n" }

abbrev asked : Authorization
asked = record {
  url = codes "https://github/auth?s";
  state = codes "s";
  pkce_verifier = some (codes "v");
  nonce = none;
}
