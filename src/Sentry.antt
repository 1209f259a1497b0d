-- ===== src/Sentry.antt =====
-- crates/muxa-sentry/src/lib.rs: the Sentry plugin, with the feature `tracing-bridge` on or off.
--
-- Parameters: a sample rate, Rust's `f32`; a DSN and its parser; the layers of the crates
-- `sentry-tower` and `sentry-tracing`; axum's routers. What `sentry::init` is given is what it runs
-- with.
pub mod Sampling
pub mod Built
mod Tests
use muxa.Prelude.{
  ℕ, Bool, true, false, not, ◌&&◌, Option, none, some, List, [], ◌∷◌, ◌++◌, if◌then◌else◌,
}
use muxa.Prelude.Text.{Text, codes, is_empty, ◌==◌}
use muxa.Prelude.Effects.{Result, ok, err, ◌>>=◌}
use muxa.Prelude.Assoc.{Assoc, lookup, insert, keep_if}
use muxa.Core.Mode.{RunMode, production, development, as_str}
use muxa.Core.Config.{EnvFallback}
use muxa.Core.Ctx.{Axum, RouterRegistry, layer}
use muxa.Telemetry.{Slot, add_layer, exclude_targets}

module _ (Rate : Type 0) where
  pub record SentryConfig : Type 0 where
    pub dsn : Option Text
    pub environment : Option Text
    pub release : Option Text
    pub traces_sample_rate : Option Rate
    pub transaction_sample_rates : Assoc Rate
    pub attach_stacktrace : Bool
    pub send_default_pii : Bool
    pub http_transactions : Bool
    pub logs : Bool

-- The rates that the code writes down, and `f32::from` of a Boolean.
pub record Rates : Type 1 where
  pub Rate : Type 0
  pub tenth : Rate
  pub whole : Rate
  pub zero_rate : Rate
  pub from_bool : Bool → Rate

abbrev pub default_sentry : (Rate : Type 0) → SentryConfig Rate
default_sentry Rate = record {
  dsn = none;
  environment = none;
  release = none;
  traces_sample_rate = none;
  transaction_sample_rates = [];
  attach_stacktrace = true;
  send_default_pii = false;
  http_transactions = true;
  logs = true;
}

abbrev pub env_fallbacks : List EnvFallback
env_fallbacks =
    record { var = codes "SENTRY_DSN"; key = codes "dsn" }
    ∷ record { var = codes "SENTRY_ENVIRONMENT"; key = codes "environment" }
    ∷ record { var = codes "SENTRY_RELEASE"; key = codes "release" }
    ∷ []

abbrev pub unwrap_or : {A : Type 0} → A → Option A → A
unwrap_or a none = a
unwrap_or a (some b) = b

module _ (r : Rates) where
  open r use {Rate}

  unfoldable pub default_traces_sample_rate : RunMode → Rate
  default_traces_sample_rate production = r.tenth
  default_traces_sample_rate development = r.whole

  abbrev pub default_transaction_sample_rates : Assoc Rate
  default_transaction_sample_rates = (codes "muxa.task", r.zero_rate) ∷ []

  unfoldable pub sample_rate_for : Assoc Rate → Rate → Text → (parent_sampled : Option Bool) → Rate
  sample_rate_for rates default_rate name (some sampled) = r.from_bool sampled
  sample_rate_for rates default_rate name none = unwrap_or default_rate (lookup name rates)

  -- `HashMap::extend`: a later entry takes the place of an earlier one.
  unfoldable pub extend : Assoc Rate → Assoc Rate → Assoc Rate
  extend rates [] = rates
  extend rates ((name, rate) ∷ more) = extend (insert name rate rates) more

-- `sentry::ClientOptions`, where they differ from their default.
pub record ClientOptions (Rate Dsn : Type 0) : Type 0 where
  pub dsn : Option Dsn
  pub environment : Text
  pub release : Option Text
  pub traces_sample_rate : Rate
  pub traces_sampler : Text → (parent_sampled : Option Bool) → Rate
  pub attach_stacktrace : Bool
  pub send_default_pii : Bool
  pub enable_logs : Bool

pub record Outside (axum : Axum) : Type 1 where
  pub Dsn : Type 0
  pub parse_dsn : Text → Result Text Dsn
  pub http_layer : (transactions : Bool) → axum.Router → axum.Router
  pub new_sentry_layer : axum.Router → axum.Router
  pub Layer : Type 0
  pub type_of : Layer → ℕ
  pub tracing_layer : Layer

-- The part of the build context that the plugin uses; whether the locks of the telemetry are free and
-- its subscriber is reached.
pub record Context (axum : Axum) (Layer : Type 0) : Type 0 where
  pub mode : RunMode
  pub router : RouterRegistry axum
  pub telemetry : Option (Slot Layer)
  pub locks : Bool
  pub reaches : Bool

abbrev pub transport : List Text
transport = codes "h2" ∷ codes "hyper" ∷ codes "hyper_util" ∷ codes "reqwest" ∷ codes "tower" ∷ []

module _ (r : Rates) (axum : Axum) (out : Outside axum) where
  open r use {Rate}
  open out use {Dsn, Layer}

  abbrev pub dsn_error : Text → Text
  dsn_error e = codes "muxa-sentry: `sentry.dsn` is not a valid DSN: " ++ e

  abbrev pub parsed : Result Text Dsn → Result Text (Option Dsn)
  parsed (ok dsn) = ok (some dsn)
  parsed (err e) = err (dsn_error e)

  abbrev pub parse_some : Option Text → Result Text (Option Dsn)
  parse_some none = ok none
  parse_some (some raw) = parsed (out.parse_dsn raw)

  -- An empty DSN is none; one that does not parse is an error.
  unfoldable pub dsn_of : Option Text → Result Text (Option Dsn)
  dsn_of dsn = parse_some (keep_if (λ raw. not (is_empty raw)) dsn)

  unfoldable pub options_of :
      (tracing_bridge : Bool) → RunMode → SentryConfig Rate → Option Dsn → ClientOptions Rate Dsn
  unfolding default_traces_sample_rate sample_rate_for extend
  options_of tracing_bridge mode cfg dsn =
      let default_rate = unwrap_or (default_traces_sample_rate r mode) cfg.traces_sample_rate in
      let rates = extend r (default_transaction_sample_rates r) cfg.transaction_sample_rates in
      record {
        dsn = dsn;
        environment = unwrap_or (as_str mode) cfg.environment;
        release = cfg.release;
        traces_sample_rate = default_rate;
        traces_sampler = sample_rate_for r rates default_rate;
        attach_stacktrace = cfg.attach_stacktrace;
        send_default_pii = cfg.send_default_pii;
        enable_logs = cfg.logs && tracing_bridge;
      }

  -- The transport's targets are hidden before the layer is attached.
  abbrev pub bridged : (tracing_bridge : Bool) → Context axum Layer → Option (Slot Layer)
  bridged false ctx = ctx.telemetry
  bridged true ctx =
      add_layer Layer out.type_of ctx.locks ctx.reaches out.tracing_layer
        (exclude_targets Layer out.type_of ctx.locks transport ctx.telemetry)

  abbrev pub wrapped : (http_transactions : Bool) → axum.Router → axum.Router
  wrapped http_transactions router = out.new_sentry_layer (out.http_layer http_transactions router)

  abbrev pub with_dsn :
      (tracing_bridge : Bool)
      → SentryConfig Rate
      → Context axum Layer
      → Result Text (Option Dsn)
      → Result Text (ClientOptions Rate Dsn) × Context axum Layer
  with_dsn tracing_bridge cfg ctx (err e) = (err e, ctx)
  with_dsn tracing_bridge cfg ctx (ok dsn) = (
    ok (options_of tracing_bridge ctx.mode cfg dsn),
    record ctx {
      router = layer axum (wrapped cfg.http_transactions) ctx.router;
      telemetry = bridged tracing_bridge ctx;
    },
  )

  -- `build`: the options that the client runs with, and the context
  unfoldable pub build :
      (tracing_bridge : Bool)
      → SentryConfig Rate
      → Context axum Layer
      → Result Text (ClientOptions Rate Dsn) × Context axum Layer
  unfolding dsn_of options_of
  build tracing_bridge cfg ctx = with_dsn tracing_bridge cfg ctx (dsn_of cfg.dsn)
