-- ===== src/Web/Spa.antt =====
-- crates/muxa-web/src/spa.rs: a single-page app's build as the app's fallback. memory-serve's file
-- router, http's responses and axum's `Router` are parameters.
pub mod Paths
pub mod Cases
pub mod Build
mod Tests
use muxa.Prelude.{
  ℕ, Bool, true, false, not, ◌||◌, ◌&&◌, Option, none, some, List, [], ◌∷◌, ◌++◌, any, all, eqb,
  within, if◌then◌else◌,
}
use muxa.Prelude.Text.{Text, codes, ◌==◌, is_empty, is_some, starts_with, strip_prefix, trim_end}
use muxa.Prelude.Effects.{Result, ok, err}
use muxa.Core.Ctx.{Axum, RouterRegistry, set_fallback}

abbrev pub index : Text
index = codes "/index.html"

abbrev pub immutable : Text
immutable = codes "max-age=31536000, immutable"

abbrev pub no_cache_value : Text
no_cache_value = codes "no-cache"

-- An asset that `build.rs` collected: its route, and its bytes where they are embedded.
pub record Asset : Type 0 where
  pub route : Text
  pub bytes : Option (List ℕ)

pub record SpaConfig : Type 0 where
  pub enabled : Bool
  pub exclude_prefixes : List Text
  pub assets_prefix : Text
  pub no_cache : List Text

abbrev pub default_config : SpaConfig
default_config = record {
  enabled = true;
  exclude_prefixes = codes "/api" ∷ codes "/health" ∷ codes "/openapi.json" ∷ codes "/docs" ∷ [];
  assets_prefix = codes "/assets";
  no_cache = codes "/sw.js" ∷ [];
}

-- What stands behind a prefix: nothing, or another segment.
abbrev pub at_segment : Option Text → Bool
at_segment none = false
at_segment (some rest) = is_empty rest || starts_with rest (codes "/")

unfoldable pub under : Text → Text → Bool
under path prefix = at_segment (strip_prefix path (trim_end (eqb b'/') prefix))

pub data Method : Type 0 where
  get head : Method
  other : Text → Method

abbrev pub reads : Method → Bool
reads get = true
reads head = true
reads (other name) = false

-- The responses, and the router that memory-serve makes of the assets, without a fallback: what it
-- answers where a route matches.
pub record Site : Type 1 where
  pub Headers : Type 0
  pub Response : Type 0
  pub status : Response → ℕ
  pub insert_cache_control : Text → Response → Response
  pub not_found : Response
  pub files : Method → Text → Headers → Option Response

abbrev pub excluded : SpaConfig → Text → Bool
excluded cfg path = any (under path) (cfg.exclude_prefixes ++ cfg.assets_prefix ∷ [])

abbrev pub is_success : ℕ → Bool
is_success status = within 200 299 status

abbrev pub embedded : List Asset → Bool
embedded assets = all (λ (asset : Asset). is_some asset.bytes) assets

module _ (site : Site) (cfg : SpaConfig) where
  open site use {Headers, Response}

  -- A router without a fallback, where no route matches.
  abbrev pub or_not_found : Option Response → Response
  or_not_found none = site.not_found
  or_not_found (some response) = response

  unfoldable pub client_route : Method → Text → Headers → Response
  client_route method path headers =
      if excluded cfg path || not (reads method)
      then site.not_found
      else or_not_found (site.files method index headers)

  abbrev pub cache_value : Bool → Text → Option Text
  cache_value embedded path =
      if any (λ p. p == path) cfg.no_cache
      then some no_cache_value
      else if embedded && under path cfg.assets_prefix
      then some immutable
      else none

  abbrev pub put_header : Option Text → Response → Response
  put_header none response = response
  put_header (some value) response = site.insert_cache_control value response

  -- Behind `next.run`, which gave the response.
  unfoldable pub cache_headers : Bool → Text → Response → Response
  cache_headers embedded path response =
      if is_success (site.status response)
      then put_header (cache_value embedded path) response
      else response

  -- The router of the fallback: the files, what they do not match, and the layer over both.
  unfoldable pub router : List Asset → Method → Text → Headers → Response
  unfolding client_route cache_headers
  router assets method path headers =
      cache_headers (embedded assets) path (elim (site.files method path headers) [
        | some response ↦ response
        | none ↦ client_route method path headers
      ])

abbrev pub no_assets : List Asset → Bool
no_assets [] = true
no_assets (asset ∷ assets) = false

-- `SpaPlugin::build`; what it registers is `router(assets, cfg)`.
module _ (axum : Axum) where
  open axum use {Router}

  unfoldable pub build :
      (List Asset → SpaConfig → Router)
      → List Asset
      → SpaConfig
      → RouterRegistry axum
      → Result Text Unit × RouterRegistry axum
  build router assets cfg ctx =
      if not cfg.enabled
        || no_assets assets
        || not (any (λ (asset : Asset). asset.route == index) assets)
      then (ok tt, ctx)
      else set_fallback axum (router assets cfg) ctx
