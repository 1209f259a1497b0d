-- ===== src/Sentry/Built.antt =====
-- crates/muxa-sentry/src/lib.rs with crates/muxa-telemetry/src/lib.rs: Sentry does not report its
-- own reporting.
use muxa.Prelude.{
  ℕ, ◌≡◌, refl, ap, ◌∙◌, Bool, true, false, Option, none, some, List, any, eqb, arith,
  if◌then◌else◌,
}
use muxa.Prelude.Text.{Text, ◌==◌}
use muxa.Prelude.Effects.{ok}
use muxa.Core.Ctx.{Axum}
use muxa.Telemetry.{
  Slot, position, in_crate, plugin_filter, add_at, add_layer, exclude_all, exclude_targets,
}
use muxa.Telemetry.Layers.{InStep, layer_of, layer_of-add_at}
use muxa.Telemetry.Targets.{InCrate, in_crate_iff, any-member, exclude_all-hides}
use muxa.Sentry.{SentryConfig, Rates, Outside, Context, transport, dsn_of, with_dsn, build}

excluded-add_at :
    (Layer : Type 0) (type_of : Layer → ℕ) (layer : Layer) (slot : Slot Layer) (index : Option ℕ)
    → (add_at Layer type_of true layer slot index).excluded ≡ slot.excluded
excluded-add_at Layer type_of layer slot none = refl
excluded-add_at Layer type_of layer slot (some index) = refl

hides_transport :
    (level_passes : Bool) (excluded : List Text) (target krate : Text)
    → any (λ t. t == krate) transport ≡ true
    → InCrate target krate
    → plugin_filter level_passes true (exclude_all transport excluded) target ≡ false
hides_transport level_passes excluded target krate named within_it =
    let found =
      any-member (in_crate target) transport krate named
        ((in_crate_iff target krate).1 within_it) in
    let (e, _) = exclude_all-hides level_passes transport excluded target krate in
    ground (arith, e, found)

module _ (r : Rates) (axum : Axum) (out : Outside axum) where
  open r use {Rate}
  open out use {Dsn, Layer}

  abbrev both : (locks reaches : Bool) → Option (Slot Layer) → Option (Slot Layer)
  both locks reaches telemetry =
      add_layer Layer out.type_of locks reaches out.tracing_layer
        (exclude_targets Layer out.type_of locks transport telemetry)

  abbrev hidden : Slot Layer → Slot Layer
  hidden slot = record slot { excluded = exclude_all transport slot.excluded }

  abbrev attached_to : Slot Layer → Slot Layer
  attached_to slot =
      add_at Layer out.type_of true out.tracing_layer (hidden slot)
        (position (out.type_of out.tracing_layer) slot.kinds)

  both-some :
      (ctx : Context axum Layer) (slot : Slot Layer)
      → ctx.telemetry ≡ some slot
      → both true true ctx.telemetry ≡ some (attached_to slot)
  unfolding add_layer exclude_targets
  both-some ctx slot installed = ap (both true true) installed

  own_type : (kind : ℕ) (a b : Option Layer) → (if eqb kind kind then a else b) ≡ a
  own_type kind a b = ground arith

  -- With the bridge, on a telemetry whose types are in step, whose locks are free and whose
  -- subscriber is reached, and with a DSN that is unset or valid: after the build the tracing layer
  -- is the one of its type, and whatever the levels let pass, no target in a crate of Sentry's own
  -- transport reaches a plugin layer.
  pub build-hides_transport :
      (cfg : SentryConfig Rate) (ctx : Context axum Layer) (dsn : Option Dsn) (slot : Slot Layer)
      (level_passes : Bool) (target krate : Text)
      → dsn_of r axum out cfg.dsn ≡ ok dsn
      → ctx.telemetry ≡ some slot
      → InStep Layer out.type_of slot
      → ctx.locks ≡ true
      → ctx.reaches ≡ true
      → any (λ t. t == krate) transport ≡ true
      → InCrate target krate
      → (slot' : Slot Layer) × ((build r axum out true cfg ctx).1.telemetry ≡ some slot')
        × (layer_of Layer out.type_of (out.type_of out.tracing_layer) slot'.layers
            ≡ some out.tracing_layer)
        × (plugin_filter level_passes true slot'.excluded target ≡ false)
  unfolding build
  build-hides_transport cfg ctx dsn slot level_passes target krate valid installed step locks
        reaches named within_it =
      (
        attached_to slot,
        ap (λ d. (with_dsn r axum out true cfg ctx d).1.telemetry) valid
            ∙ (ap (λ l. both l ctx.reaches ctx.telemetry) locks
                ∙ (ap (λ q. both true q ctx.telemetry) reaches ∙ both-some ctx slot installed)),
        layer_of-add_at Layer out.type_of out.tracing_layer (hidden slot)
              (position (out.type_of out.tracing_layer) slot.kinds) (out.type_of out.tracing_layer)
              step refl
            ∙ own_type (out.type_of out.tracing_layer) (some out.tracing_layer) _,
        ap (λ excluded. plugin_filter level_passes true excluded target)
              (excluded-add_at Layer out.type_of out.tracing_layer (hidden slot)
                (position (out.type_of out.tracing_layer) slot.kinds))
            ∙ hides_transport level_passes slot.excluded target krate named within_it,
      )
