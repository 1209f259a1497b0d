-- ===== src/Auth/Provider/Sample.antt =====
-- Stand-ins for the crates behind crates/muxa-auth/src/provider.rs, for the tests.
use muxa.Prelude.{ℕ, Option, none, some, eqb, if◌then◌else◌}
use muxa.Prelude.Text.{Text, codes, ◌==◌}
use muxa.Prelude.Effects.{Result, ok, err}
use muxa.Auth.Provider.{Scalar, number}
use muxa.Auth.Provider.OAuth2.{OAuth}
use muxa.Auth.Provider.Oidc.{OidcClient, OpenId}

-- A JSON value is a field's name, with what it holds.
abbrev json_get : Text × Scalar → Text → Option (Text × Scalar)
json_get (field, value) name = if field == name then some (field, value) else none

abbrev pub oauth : OAuth
oauth = record {
  Url = Text;
  parse = λ s. ok s;
  Value = Text × Scalar;
  get = json_get;
  scalar = λ v. v.1;
  Body = Text;
  json = λ body. ok (codes "id", number body);
  challenge_of = λ verifier. verifier;
}

-- The key is the time of discovery; tokens are signed with the key of 50, and hold the nonce.
abbrev claims_of : ℕ × Text → OidcClient ℕ Text → Text → Result Text Text
claims_of (key, nonce) client expected =
    if eqb key client.metadata
    then if nonce == expected then ok nonce else err (codes "nonce")
    else err (codes "signature")

abbrev pub open_id : OpenId
open_id = record {
  Url = Text;
  parse = λ s. ok s;
  Metadata = ℕ;
  discover = λ url time. ok time;
  challenge_of = λ verifier. verifier;
  authorize_url = λ client scopes challenge state nonce. state;
  TokenResponse = ℕ × Text;
  IdToken = ℕ × Text;
  token_endpoint = λ client. ok tt;
  request_token = λ client code verifier. ok (50, codes "n");
  id_token = λ token. some token;
  access_token = λ token. codes "token";
  Claims = Text;
  claims = claims_of;
  access_token_hash = λ claims. some (codes "token");
  Alg = Unit;
  Key = Unit;
  signing_alg = λ token. ok tt;
  signing_key = λ token client. ok tt;
  hash_of = λ token alg key. ok token;
  hash_eq = λ a b. a == b;
  subject = λ claims. codes "subject";
  email = λ claims. none;
  email_verified = λ claims. none;
  name = λ claims. none;
  Value = Text;
  to_value = λ claims. claims;
}
