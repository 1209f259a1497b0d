-- ===== src/Auth/Plugin.antt =====
-- `AuthPlugin` of crates/muxa-auth/src/plugin.rs: the sign-in routes, the layers and the sweeper that
-- the `[auth]` section asks for.
--
-- Parameters beside those of the providers: axum's routers; the routes, which have the providers and
-- the mount; the session layer with axum-login's, which have the cookie's attributes; and the
-- guard's layer. A sweeper is the interval it is started with.
pub mod TurnedOn
pub mod Providers
pub mod Mounted
mod Tests
use muxa.Prelude.{
  ℕ, ◌≡◌, Bool, true, false, not, Option, none, some, List, [], ◌∷◌, ◌++◌, eqb, any, max,
  if◌then◌else◌,
}
use muxa.Prelude.Text.{Text, codes, ◌==◌, is_empty, trim_start, trim_end}
use muxa.Prelude.Effects.{Result, ok, err}
use muxa.Prelude.Assoc.{Assoc, keys}
use muxa.Core.Ctx.{Axum, RouterRegistry, mount, layer}
use muxa.Auth.Config.{ℤ, SameSite, ProviderConfig, oauth2, oidc, AuthConfig, client_id}
use muxa.Auth.Csrf.{Urls}
use muxa.Auth.Csrf
use muxa.Auth.Provider.OAuth2.{OAuth}
use muxa.Auth.Provider.Oidc.{OpenId}
use muxa.Auth.Provider.Dispatch.{Provider, from_config}

-- Which providers are on, sorted.
pub record AuthHandle : Type 0 where
  pub providers : List Text

unfoldable pub has_provider : AuthHandle → Text → Bool
has_provider handle id = any (λ provider. provider == id) handle.providers

unfoldable pub provider_redirect : ProviderConfig → Option Text
provider_redirect (oauth2 cfg) = cfg.redirect_url
provider_redirect (oidc cfg) = cfg.redirect_url

-- `/` before the mount without slashes at its ends; nothing for the root
unfoldable pub mount_path : Text → Text
unfolding trim_start trim_end
mount_path path =
    let trimmed = trim_end (eqb b'/') (trim_start (eqb b'/') path) in
    if is_empty trimmed then [] else b'/' ∷ trimmed

unfoldable pub base_of : Text → Text
unfolding trim_end
base_of url = trim_end (eqb b'/') url

abbrev pub callback_url : Text → Text → Text → Text
callback_url base_url at id = base_url ++ (at ++ (b'/' ∷ id ++ codes "/callback"))

-- The redirect URL of a provider: its own, or one under the base URL; none where that is unset.
abbrev pub redirect_or : Text → Text → Text → Option Text → Option Text
redirect_or base_url at id (some url) = some url
redirect_or base_url at id none =
    if is_empty base_url then none else some (callback_url base_url at id)

module _ (o : OAuth) (i : OpenId) (as_redirect : o.Url → i.Url) where
  abbrev pub on : Result Text (Option (Provider o i)) → Option (Provider o i)
  on (ok p) = p
  on (err e) = none

  abbrev pub from_redirect : Text → ProviderConfig → Option Text → Option (Provider o i)
  from_redirect id cfg none = none
  from_redirect id cfg (some redirect) = on (from_config o i as_redirect id cfg redirect)

  -- One turn of the loop: the provider, where it is on
  unfoldable pub turned_on : Text → Text → Text → ProviderConfig → Option (Provider o i)
  unfolding client_id provider_redirect
  turned_on base_url at id cfg =
      let provider = from_redirect id cfg (redirect_or base_url at id (provider_redirect cfg)) in
      if is_empty (client_id cfg) then none else provider

  abbrev pub add_on : Text → Option (Provider o i) → Assoc (Provider o i) → Assoc (Provider o i)
  add_on id none providers = providers
  add_on id (some p) providers = (id, p) ∷ providers

  -- The loop. Both maps are in the order of their keys, so a provider is put where its
  -- configuration stood.
  unfoldable pub build_providers : Text → Text → Assoc ProviderConfig → Assoc (Provider o i)
  unfolding turned_on
  build_providers base_url at [] = []
  build_providers base_url at ((id, cfg) ∷ rest) =
      add_on id (turned_on base_url at id cfg) (build_providers base_url at rest)

-- The attributes of the session cookie, which is always `HttpOnly` and for the path `/`.
pub record SessionLayer : Type 0 where
  pub name : Text
  pub path : Text
  pub http_only : Bool
  pub secure : Bool
  pub same_site : SameSite
  pub inactivity_secs : ℤ

pub record AuthFlow (P : Type 0) : Type 0 where
  pub providers : Assoc P
  pub sign_in_path : Text
  pub default_next : Text
  pub error_param : Text

-- What the plugin registers: routers and layers, and background tasks with their interval.
pub record Registered (axum : Axum) : Type 0 where
  pub router : RouterRegistry axum
  pub tasks : List (Text × ℕ)

module _ (o : OAuth) (i : OpenId) (as_redirect : o.Url → i.Url) (u : Urls) (axum : Axum) where
  pub record Layers : Type 0 where
    pub routes : AuthFlow (Provider o i) → Text → axum.Router
    pub auth_layer : SessionLayer → axum.Router → axum.Router
    pub guard_layer : Csrf.TrustedOrigins u → axum.Router → axum.Router

module _ (o : OAuth) (i : OpenId) (as_redirect : o.Url → i.Url) (u : Urls) (axum : Axum) where
  abbrev pub session_layer : AuthConfig → SessionLayer
  session_layer cfg = record {
    name = cfg.cookie.name;
    path = codes "/";
    http_only = true;
    secure = cfg.cookie.secure;
    same_site = cfg.cookie.same_site;
    inactivity_secs = cfg.cookie.ttl_secs;
  }

  abbrev pub flow_of : AuthConfig → AuthFlow (Provider o i)
  flow_of cfg = record {
    providers =
        build_providers o i as_redirect (base_of cfg.base_url) (mount_path cfg.mount) cfg.providers;
    sign_in_path = cfg.sign_in_path;
    default_next = cfg.default_next;
    error_param = cfg.error_param;
  }

  abbrev pub sweeps : Bool → ℕ → List (Text × ℕ)
  sweeps true cleanup_interval_secs = (codes "muxa-auth.sweep", max cleanup_interval_secs 60) ∷ []
  sweeps false cleanup_interval_secs = []

  -- `build`, where the HTTP client could be made or not, and the app's parts sweep or do not
  unfoldable pub build :
      Layers o i as_redirect u axum
      → (http : Result Text Unit) → (sweep_expired : Bool) → AuthConfig
      → Registered axum
      → Result Text AuthHandle × Registered axum
  unfolding build_providers mount_path base_of mount layer
  build layers (err e) sweep_expired cfg ctx = (err e, ctx)
  build layers (ok _) sweep_expired cfg ctx =
      let flow = flow_of cfg in
      let mounted = mount axum (codes "/") (layers.routes flow (mount_path cfg.mount)) ctx.router in
      let signed_in = layer axum (layers.auth_layer (session_layer cfg)) mounted in
      let trusted = Csrf.new u (base_of cfg.base_url ∷ cfg.trusted_origins) in
      (
        ok (record { providers = keys flow.providers }),
        record {
          router = layer axum (layers.guard_layer trusted) signed_in;
          tasks = ctx.tasks ++ sweeps sweep_expired cfg.cleanup_interval_secs;
        },
      )
