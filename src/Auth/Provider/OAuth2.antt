-- ===== src/Auth/Provider/OAuth2.antt =====
-- `OAuth2Provider` of crates/muxa-auth/src/provider.rs.
use muxa.Prelude.{Bool, false, not, Option, none, some, List, ◌++◌, if◌then◌else◌}
use muxa.Prelude.Text.{Text, codes, is_empty}
use muxa.Prelude.Effects.{Result, ok, err, ◌>>=◌}
use muxa.Prelude.Assoc.{keep_if}
use muxa.Auth.Identity.{ExternalIdentity}
use muxa.Auth.Pending.{PendingLogin}
use muxa.Auth.Routes.{Authorization}
use muxa.Auth.Config.{OAuth2ProviderConfig, TokenAuth, basic, post}
use muxa.Auth.Provider.{
  in_context, ErrorChain, chain_in, Scalar, string, number, neither, secret_of,
}

pub data AuthType : Type 0 where
  basic_auth request_body : AuthType

-- `AuthUrl::new`, `TokenUrl::new` and `RedirectUrl::new` parse a URL, as `Url::parse` does.
pub record OAuth : Type 1 where
  pub Url : Type 0
  pub parse : Text → Result Text Url
  pub Value : Type 0
  pub get : Value → Text → Option Value
  pub scalar : Value → Scalar
  pub Body : Type 0
  pub json : Body → Result Text Value
  pub challenge_of : (verifier : Text) → Text

-- The settings of a `BasicClient`.
pub record Client (Url : Type 0) : Type 0 where
  pub id : Text
  pub auth_url : Url
  pub token_url : Url
  pub redirect : Url
  pub auth_type : AuthType
  pub secret : Option Text

-- What goes over the network, or is printed: the authorization URL with its scopes, its challenge
-- and its state; the code exchanged for an access token; and the userinfo.
pub record Wire (o : OAuth) : Type 0 where
  pub authorize_url : Client o.Url → List Text → Option Text → (state : Text) → Text
  pub exchange_code :
      Client o.Url → (code : Text) → (verifier : Option Text) → Result ErrorChain Text
  pub userinfo : o.Url → (access_token : Text) → Result Text o.Body

module _ (o : OAuth) where
  open o use {Url, Value}

  pub record OAuth2Provider : Type 0 where
    pub id : Text
    pub client : Client Url
    pub scopes : List Text
    pub pkce : Bool
    pub userinfo_url : Url
    pub subject_field : Text
    pub email_field : Option Text
    pub name_field : Option Text

module _ (o : OAuth) where
  open o use {Url, Value}

  abbrev pub auth_type_of : TokenAuth → AuthType
  auth_type_of basic = basic_auth
  auth_type_of post = request_body

  unfoldable pub new : Text → OAuth2ProviderConfig → Url → Result Text (OAuth2Provider o)
  new id cfg redirect = do
    auth_url ← in_context (codes "auth_url") (o.parse cfg.auth_url)
    token_url ← in_context (codes "token_url") (o.parse cfg.token_url)
    userinfo_url ← in_context (codes "userinfo_url") (o.parse cfg.userinfo_url)
    ok record {
      id = id;
      client = record {
        id = cfg.client_id;
        auth_url = auth_url;
        token_url = token_url;
        redirect = redirect;
        auth_type = auth_type_of cfg.token_auth;
        secret = secret_of cfg.client_secret;
      };
      scopes = cfg.scopes;
      pkce = cfg.pkce;
      userinfo_url = userinfo_url;
      subject_field = cfg.subject_field;
      email_field = cfg.email_field;
      name_field = cfg.name_field;
    }

  -- `authorize`, with the verifier and the state that are drawn
  unfoldable pub authorize : Wire o → (verifier state : Text) → OAuth2Provider o → Authorization
  authorize wire verifier state p =
      let drawn : Option Text × Option Text =
        if p.pkce then (some (o.challenge_of verifier), some verifier) else (none, none) in
      record {
        url = wire.authorize_url p.client p.scopes drawn.0 state;
        state = state;
        pkce_verifier = drawn.1;
        nonce = none;
      }

  abbrev pub subject_in : Option Scalar → Option Text
  subject_in (some (string id)) = if is_empty id then none else some id
  subject_in (some (number id)) = some id
  subject_in (some neither) = none
  subject_in none = none

  abbrev pub as_str : Scalar → Option Text
  as_str (string s) = some s
  as_str (number s) = none
  as_str neither = none

  unfoldable pub subject : Text → Value → Option Text
  subject field profile =
      subject_in (elim (o.get profile field) [ none ↦ none | some value ↦ some (o.scalar value) ])

  unfoldable pub string_field : Value → Option Text → Option Text
  string_field profile none = none
  string_field profile (some name) = elim (o.get profile name) [
    | none ↦ none
    | some value ↦ keep_if (λ s. not (is_empty s)) (as_str (o.scalar value))
  ]

  abbrev pub no_field : Text → Text
  no_field field = codes "userinfo has no `" ++ (field ++ codes "` field")

  abbrev pub or_err : Text → Option Text → Result Text Text
  or_err e none = err e
  or_err e (some a) = ok a

  unfoldable pub identify :
      Wire o
      → (code : Text) → PendingLogin
      → OAuth2Provider o
      → Result Text (ExternalIdentity Value)
  unfolding subject string_field
  identify wire code pending p = do
    token ←
        chain_in (codes "token exchange") (wire.exchange_code p.client code pending.pkce_verifier)
    body ← in_context (codes "userinfo") (wire.userinfo p.userinfo_url token)
    profile ← in_context (codes "userinfo body") (o.json body)
    subject_id ← or_err (no_field p.subject_field) (subject p.subject_field profile)
    ok record {
      provider = p.id;
      subject = subject_id;
      email = string_field profile p.email_field;
      email_verified = false;
      name = string_field profile p.name_field;
      profile = profile;
    }
