-- ===== src/Auth/Provider/Oidc.antt =====
-- `OidcProvider` of crates/muxa-auth/src/provider.rs.
--
-- Parameters: the crate `openidconnect`, with its check of an ID token, and the clock. What
-- discovery answers depends on when it is asked.
use muxa.Prelude.{ℕ, ◌-◌, Bool, true, false, Option, none, some, List, ltb, if◌then◌else◌}
use muxa.Prelude.Text.{Text, codes}
use muxa.Prelude.Effects.{Result, ok, err, ◌>>=◌}
use muxa.Auth.Identity.{ExternalIdentity}
use muxa.Auth.Pending.{PendingLogin}
use muxa.Auth.Routes.{Authorization}
use muxa.Auth.Config.{OidcProviderConfig}
use muxa.Auth.Provider.{in_context, ErrorChain, chain_in, secret_of}

-- The settings of a `CoreClient`: what was discovered, and the builder's.
pub record OidcClient (Metadata Url : Type 0) : Type 0 where
  pub metadata : Metadata
  pub client_id : Text
  pub client_secret : Option Text
  pub redirect : Url

pub record OpenId : Type 1 where
  pub Url : Type 0
  pub parse : Text → Result Text Url
  pub Metadata : Type 0
  pub discover : Url → (time : ℕ) → Result ErrorChain Metadata
  pub challenge_of : (verifier : Text) → Text
  pub authorize_url : OidcClient Metadata Url → List Text → (challenge state nonce : Text) → Text
  pub TokenResponse : Type 0
  pub IdToken : Type 0
  -- `exchange_code` fails where no token endpoint was discovered
  pub token_endpoint : OidcClient Metadata Url → Result Text Unit
  pub request_token :
      OidcClient Metadata Url
      → (code : Text) → (verifier : Option Text) → Result ErrorChain TokenResponse
  pub id_token : TokenResponse → Option IdToken
  pub access_token : TokenResponse → Text
  pub Claims : Type 0
  -- the claims of a token whose signature, issuer, audience, expiry and nonce are right
  pub claims : IdToken → OidcClient Metadata Url → (nonce : Text) → Result Text Claims
  pub access_token_hash : Claims → Option Text
  pub Alg : Type 0
  pub Key : Type 0
  pub signing_alg : IdToken → Result Text Alg
  pub signing_key : IdToken → OidcClient Metadata Url → Result Text Key
  pub hash_of : (access_token : Text) → Alg → Key → Result Text Text
  pub hash_eq : Text → Text → Bool
  pub subject : Claims → Text
  pub email : Claims → Option Text
  pub email_verified : Claims → Option Bool
  pub name : Claims → Option Text
  pub Value : Type 0
  pub to_value : Claims → Value

module _ (o : OpenId) where
  abbrev pub Client : Type 0
  Client = OidcClient o.Metadata o.Url

  pub record OidcProvider : Type 0 where
    pub id : Text
    pub issuer : o.Url
    pub client_id : Text
    pub client_secret : Text
    pub redirect : o.Url
    pub scopes : List Text
    pub ttl : ℕ

  -- The client built from the last discovery, and when.
  abbrev pub Cached : Type 0
  Cached = Option (OidcClient o.Metadata o.Url × ℕ)

-- When a call of `client` reads the clock: for the age of what is cached, to discover, and to note
-- when it has built a client.
pub record Clock : Type 0 where
  pub read_at : ℕ
  pub discover_at : ℕ
  pub built_at : ℕ

module _ (o : OpenId) where
  open o use {Url, Value, IdToken, TokenResponse, Claims}

  unfoldable pub new : Text → OidcProviderConfig → Url → Result Text (OidcProvider o × Cached o)
  new id cfg redirect = do
    issuer ← in_context (codes "issuer") (o.parse cfg.issuer)
    ok (
      record {
        id = id;
        issuer = issuer;
        client_id = cfg.client_id;
        client_secret = cfg.client_secret;
        redirect = redirect;
        scopes = cfg.scopes;
        ttl = cfg.metadata_ttl_secs;
      },
      none,
    )

  unfoldable pub cached_client : OidcProvider o → (now : ℕ) → Cached o → Option (Client o)
  cached_client p now none = none
  cached_client p now (some (known, at)) = if ltb (now - at) p.ttl then some known else none

  abbrev pub build_client : OidcProvider o → o.Metadata → Client o
  build_client p metadata = record {
    metadata = metadata;
    client_id = p.client_id;
    client_secret = secret_of p.client_secret;
    redirect = p.redirect;
  }

  -- A result that leaves the cache as it is where it fails.
  abbrev pub keep_built :
      OidcProvider o → ℕ → Cached o → Result Text o.Metadata → Result Text (Client o) × Cached o
  keep_built p now cache (err e) = (err e, cache)
  keep_built p now cache (ok metadata) =
      (ok (build_client p metadata), some (build_client p metadata, now))

  unfoldable pub discover_client :
      OidcProvider o → Clock → Cached o → Result Text (Client o) × Cached o
  discover_client p clock cache =
      keep_built p clock.built_at cache
        (chain_in (codes "discovery") (o.discover p.issuer clock.discover_at))

  abbrev pub or_discover :
      OidcProvider o → Clock → Cached o → Option (Client o) → Result Text (Client o) × Cached o
  or_discover p clock cache (some known) = (ok known, cache)
  or_discover p clock cache none = discover_client p clock cache

  unfoldable pub client :
      OidcProvider o → (force : Bool) → Clock → Cached o → Result Text (Client o) × Cached o
  unfolding cached_client discover_client
  client p true clock cache = discover_client p clock cache
  client p false clock cache = or_discover p clock cache (cached_client p clock.read_at cache)

  -- Continue with the client, and with the cache that was left.
  abbrev pub with_client :
      {A : Type 0}
      → Result Text (Client o) × Cached o
      → (Client o → Cached o → Result Text A × Cached o)
      → Result Text A × Cached o
  with_client (err e, cache) f = (err e, cache)
  with_client (ok current, cache) f = f current cache

  unfoldable pub authorize :
      (verifier state nonce : Text)
      → OidcProvider o
      → Clock
      → Cached o
      → Result Text Authorization × Cached o
  unfolding client
  authorize verifier state nonce p clock cache =
      with_client (client p false clock cache) (λ current cache'. (
        ok record {
          url = o.authorize_url current p.scopes (o.challenge_of verifier) state nonce;
          state = state;
          pkce_verifier = some verifier;
          nonce = some nonce;
        },
        cache',
      ))

  abbrev pub or_err : {A : Type 0} → Text → Option A → Result Text A
  or_err e none = err e
  or_err e (some a) = ok a

  -- The tokens that the code is exchanged for
  unfoldable pub redeem :
      Client o → (code : Text) → PendingLogin → Result Text (TokenResponse × IdToken)
  redeem current code pending = do
    request ← in_context (codes "token endpoint") (o.token_endpoint current)
    token ← chain_in (codes "token exchange") (o.request_token current code pending.pkce_verifier)
    id_token ← or_err (codes "token response has no id_token") (o.id_token token)
    ok (token, id_token)

  abbrev pub checked :
      Client o → Cached o → Result Text Claims → Result Text (Claims × Client o) × Cached o
  checked current cache (ok claims) = (ok (claims, current), cache)
  checked current cache (err e) = (err e, cache)

  -- A failure may be a signing key rotated since discovery: one more check, by a client
  -- discovered anew.
  abbrev pub or_recheck :
      OidcProvider o
      → IdToken
      → (nonce : Text) → Clock
      → Client o
      → Cached o
      → Result Text Claims
      → Result Text (Claims × Client o) × Cached o
  or_recheck p id_token nonce clock first cache (ok claims) = (ok (claims, first), cache)
  or_recheck p id_token nonce clock first cache (err e) =
      with_client (client p true clock cache) (λ rediscovered cache'.
        checked rediscovered cache'
          (in_context (codes "id token") (o.claims id_token rediscovered nonce)))

  -- The claims, and the client that has checked them
  unfoldable pub check_claims :
      OidcProvider o
      → IdToken
      → (nonce : Text) → Clock
      → Client o
      → Cached o
      → Result Text (Claims × Client o) × Cached o
  unfolding client
  check_claims p id_token nonce clock first cache =
      or_recheck p id_token nonce clock first cache (o.claims id_token first nonce)

  abbrev pub hash_mismatch : Text
  hash_mismatch = codes "at_hash does not match the access token"

  -- The check against the hash that the claims have, if they have one
  abbrev pub matches_hash :
      TokenResponse → IdToken → Client o → (expected : Option Text) → Result Text Unit
  matches_hash token id_token checker none = ok tt
  matches_hash token id_token checker (some expected) = do
    alg ← in_context (codes "id token alg") (o.signing_alg id_token)
    key ← in_context (codes "id token key") (o.signing_key id_token checker)
    actual ← in_context (codes "at_hash") (o.hash_of (o.access_token token) alg key)
    if o.hash_eq actual expected then ok tt else err hash_mismatch

  unfoldable pub check_hash : TokenResponse → IdToken → Claims → Client o → Result Text Unit
  check_hash token id_token claims checker =
      matches_hash token id_token checker (o.access_token_hash claims)

  abbrev pub or_false : Option Bool → Bool
  or_false none = false
  or_false (some b) = b

  abbrev pub identity_of : OidcProvider o → Claims → ExternalIdentity Value
  identity_of p claims = record {
    provider = p.id;
    subject = o.subject claims;
    email = o.email claims;
    email_verified = or_false (o.email_verified claims);
    name = o.name claims;
    profile = o.to_value claims;
  }

  -- What follows the check of the claims
  abbrev pub conclude :
      OidcProvider o
      → TokenResponse
      → IdToken
      → Result Text (Claims × Client o) × Cached o
      → Result Text (ExternalIdentity Value) × Cached o
  conclude p token id_token (err e, cache) = (err e, cache)
  conclude p token id_token (ok (claims, current), cache) =
      (check_hash token id_token claims current >>= (λ hash_ok. ok (identity_of p claims)), cache)

  abbrev pub proceed :
      OidcProvider o
      → (nonce : Text) → Clock
      → Client o
      → Cached o
      → Result Text (TokenResponse × IdToken)
      → Result Text (ExternalIdentity Value) × Cached o
  proceed p nonce clock current cache (err e) = (err e, cache)
  proceed p nonce clock current cache (ok (token, id_token)) =
      conclude p token id_token (check_claims p id_token nonce clock current cache)

  abbrev pub with_nonce :
      (code : Text)
      → PendingLogin
      → OidcProvider o
      → (clock clock' : Clock) → Cached o
      → (nonce : Option Text) → Result Text (ExternalIdentity Value) × Cached o
  with_nonce code pending p clock clock' cache none = (err (codes "sign-in has no nonce"), cache)
  with_nonce code pending p clock clock' cache (some nonce) =
      with_client (client p false clock cache)
        (λ current cache'. proceed p nonce clock' current cache' (redeem current code pending))

  -- `identify`, with the clock as its first and its second call of `client` read it
  unfoldable pub identify :
      (code : Text)
      → PendingLogin
      → OidcProvider o
      → (clock clock' : Clock) → Cached o
      → Result Text (ExternalIdentity Value) × Cached o
  unfolding client redeem check_claims check_hash
  identify code pending p clock clock' cache =
      with_nonce code pending p clock clock' cache pending.nonce
