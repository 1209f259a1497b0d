-- ===== src/Sentry/Tests.antt =====
-- A client with an override, and the bridge to it.
use muxa.Prelude.{ℕ, ◌≡◌, refl, Bool, true, false, none, some, [], ◌∷◌, if◌then◌else◌, inr}
use muxa.Prelude.Text.{Text, codes, str_ops, ◌==◌}
use muxa.Prelude.Effects.{ok, err}
use muxa.Prelude.Assoc.{lookup, insert, remove}
use muxa.Core.Mode.{production}
use muxa.Core.Ctx.{Axum, empty_registry, layer}
use muxa.Telemetry.{
  Slot, empty_slot, in_crate, is_excluded, plugin_filter, position, replace, add_layer, exclude_all,
  exclude_targets,
}
use muxa.Telemetry.Layers.{layer_of}
use muxa.Sentry.{
  SentryConfig, Rates, default_sentry, default_traces_sample_rate, sample_rate_for, extend, Outside,
  Context, dsn_of, options_of, build,
}
use muxa.Sentry.Sampling.{options_of-sampler}
use muxa.Sentry.Built.{build-hides_transport}

sentry : Unit {0}
unfolding lookup insert remove layer in_crate is_excluded plugin_filter position replace add_layer
    exclude_all exclude_targets layer_of default_traces_sample_rate sample_rate_for extend dsn_of
    options_of build str_ops
sentry = tt

abbrev rate_of : Bool → ℕ
rate_of true = 100
rate_of false = 0

-- Rates in hundredths.
abbrev rates : Rates
rates = record { Rate = ℕ; tenth = 10; whole = 100; zero_rate = 0; from_bool = rate_of }

abbrev axum : Axum
axum = record {
  Router = ℕ;
  new = 0;
  merge = λ a b. a;
  nest = λ a prefix b. a;
  fallback_service = λ a b. a;
}

abbrev outside : Outside axum
outside = record {
  Dsn = Text;
  parse_dsn = λ raw. if raw == codes "bad" then err (codes "no scheme") else ok raw;
  http_layer = λ transactions router. router;
  new_sentry_layer = λ router. router;
  Layer = ℕ;
  type_of = λ l. l;
  tracing_layer = 3;
}

abbrev config : SentryConfig ℕ
config = record (default_sentry ℕ) {
  dsn = some (codes "https://key@sentry/1");
  transaction_sample_rates = (codes "GET /healthz", 0) ∷ [];
}

abbrev context : Context axum ℕ
context = record {
  mode = production;
  router = empty_registry axum;
  telemetry = some (empty_slot ℕ);
  locks = true;
  reaches = true;
}

refuses_bad_dsn :
    (build rates axum outside true (record config { dsn = some (codes "bad") }) context).0
    ≡ err (codes "muxa-sentry: `sentry.dsn` is not a valid DSN: no scheme")
unfolding sentry
refuses_bad_dsn = refl

empty_dsn_is_none : dsn_of rates axum outside (some []) ≡ ok none
unfolding sentry
empty_dsn_is_none = refl

options_of-sampler_example :
    ◌≡◌ {A = ℕ}
      ((options_of rates axum outside true production config none).traces_sampler
        (codes "GET /healthz")
        none)
      0
unfolding sentry
options_of-sampler_example =
    options_of-sampler rates axum outside true production config none (codes "GET /healthz") none
      (refl, tt)

build-hides_transport_example :
    (slot' : Slot ℕ) × ((build rates axum outside true config context).1.telemetry ≡ some slot')
    × (layer_of ℕ (λ l. l) 3 slot'.layers ≡ some 3)
    × (plugin_filter true true slot'.excluded (codes "hyper::client") ≡ false)
unfolding sentry
build-hides_transport_example =
    build-hides_transport rates axum outside config context (some (codes "https://key@sentry/1"))
      (empty_slot ℕ) true (codes "hyper::client") (codes "hyper") refl refl (refl, tt) refl refl
      refl (inr (codes "client", refl))
