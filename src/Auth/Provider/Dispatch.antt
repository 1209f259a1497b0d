-- ===== src/Auth/Provider/Dispatch.antt =====
-- `Provider` of crates/muxa-auth/src/provider.rs: a provider of either kind, built from its
-- configuration, with the feature `oidc` on. Redirect URLs are the same type in both crates, which
-- `as_redirect` says.
use muxa.Prelude.{◌≡◌, Option, none, some, if◌then◌else◌}
use muxa.Prelude.Text.{Text, codes, is_empty}
use muxa.Prelude.Effects.{Result, ok, err, ◌>>=◌}
use muxa.Auth.Identity.{ExternalIdentity}
use muxa.Auth.Pending.{PendingLogin}
use muxa.Auth.Routes.{Authorization}
use muxa.Auth.Config.{ProviderConfig, oauth2, oidc, client_id}
use muxa.Auth.Provider.{in_context}
use muxa.Auth.Provider.OAuth2
use muxa.Auth.Provider.Oidc
use muxa.Auth.Provider.OAuth2.{OAuth, Wire, OAuth2Provider}
use muxa.Auth.Provider.Oidc.{OpenId, OidcProvider, Cached, Clock}

module _ (o : OAuth) (i : OpenId) where
  pub data Provider : Type 0 where
    plain : OAuth2Provider o → Provider
    openid : OidcProvider i → Cached i → Provider

module _ (o : OAuth) (i : OpenId) (as_redirect : o.Url → i.Url) where
  abbrev pub plain_of : Result Text (OAuth2Provider o) → Result Text (Option (Provider o i))
  plain_of (ok p) = ok (some (plain p))
  plain_of (err e) = err e

  abbrev pub openid_of :
      Result Text (OidcProvider i × Cached i) → Result Text (Option (Provider o i))
  openid_of (ok (p, cache)) = ok (some (openid p cache))
  openid_of (err e) = err e

  abbrev pub of_kind : Text → ProviderConfig → o.Url → Result Text (Option (Provider o i))
  of_kind id (oauth2 cfg) redirect = plain_of (OAuth2.new o id cfg redirect)
  of_kind id (oidc cfg) redirect = openid_of (Oidc.new i id cfg (as_redirect redirect))

  unfoldable pub from_config :
      Text → ProviderConfig → (redirect_url : Text) → Result Text (Option (Provider o i))
  unfolding client_id
  from_config id cfg redirect_url =
      let built = in_context (codes "redirect url") (o.parse redirect_url) >>= of_kind id cfg in
      if is_empty (client_id cfg) then ok none else built

-- What is drawn for an authorization.
pub record Drawn : Type 0 where
  pub verifier : Text
  pub state : Text
  pub nonce : Text

module _ (o : OAuth) (i : OpenId) where
  abbrev pub left_with :
      {A : Type 0} → OidcProvider i → Result Text A × Cached i → Result Text A × Provider o i
  left_with p (result, cache) = (result, openid p cache)

  abbrev pub with_value :
      (i.Value → o.Value)
      → Result Text (ExternalIdentity i.Value) × Cached i
      → Result Text (ExternalIdentity o.Value) × Cached i
  with_value as_value (err e, cache) = (err e, cache)
  with_value as_value (ok identity, cache) = (
    ok record {
      provider = identity.provider;
      subject = identity.subject;
      email = identity.email;
      email_verified = identity.email_verified;
      name = identity.name;
      profile = as_value identity.profile;
    },
    cache,
  )

  unfoldable pub authorize :
      Wire o → Drawn → Clock → Provider o i → Result Text Authorization × Provider o i
  authorize wire drawn clock (plain p) =
      (ok (OAuth2.authorize o wire drawn.verifier drawn.state p), plain p)
  authorize wire drawn clock (openid p cache) =
      left_with p (Oidc.authorize i drawn.verifier drawn.state drawn.nonce p clock cache)

  -- What a provider says of a person, with serde_json's `Value` of either crate read as one
  unfoldable pub identify :
      (as_value : i.Value → o.Value)
      → Wire o
      → (code : Text) → PendingLogin
      → (clock clock' : Clock) → Provider o i
      → Result Text (ExternalIdentity o.Value) × Provider o i
  identify as_value wire code pending clock clock' (plain p) =
      (OAuth2.identify o wire code pending p, plain p)
  identify as_value wire code pending clock clock' (openid p cache) =
      left_with p (with_value as_value (Oidc.identify i code pending p clock clock' cache))

  -- What an attempt remembers of an authorization: the state drawn; of an OpenID Connect provider
  -- also the verifier and the nonce drawn; of a plain one the verifier only with PKCE on, and no nonce.
  abbrev pub Remembers : Drawn → Authorization → Provider o i → Type 0
  Remembers drawn a (plain p) =
      (a.state ≡ drawn.state)
      × (a.pkce_verifier ≡ (if p.pkce then some drawn.verifier else none))
      × (a.nonce ≡ none)
  Remembers drawn a (openid p cache) =
      (a.state ≡ drawn.state)
      × (a.pkce_verifier ≡ some drawn.verifier)
      × (a.nonce ≡ some drawn.nonce)
