-- ===== src/Sentry/Sampling.antt =====
-- crates/muxa-sentry/src/lib.rs: the rate at which a transaction is sampled.
use muxa.Prelude.{
  ◌≡◌, refl, sym, ap, ◌∙◌, inl, inr, Bool, true, Option, none, some, [], ◌∷◌, arith, Bool-cases,
  if◌then◌else◌,
}
use muxa.Prelude.Text.{Text, codes, ◌==◌}
use muxa.Prelude.Text.Laws.{==_iff}
use muxa.Prelude.Assoc.{Assoc, lookup, insert, lookup-insert, IsMap}
use muxa.Core.Mode.{RunMode}
use muxa.Sentry.{
  SentryConfig, Rates, unwrap_or, default_traces_sample_rate, default_transaction_sample_rates,
  sample_rate_for, extend, Outside, options_of,
}
use muxa.Core.Ctx.{Axum}

abbrev pub or_else : {A : Type 0} → Option A → Option A → Option A
or_else (some a) o = some a
or_else none o = o

module _ (r : Rates) where
  open r use {Rate}

  extend_step :
      (n name : Text) (rate : Rate) (later earlier : Option Rate)
      → ((n == name) ≡ true → later ≡ none)
      → or_else later (if n == name then some rate else earlier)
        ≡ or_else (if n == name then some rate else later) earlier
  extend_step n name rate (some x) earlier new = ground (arith, new)
  extend_step n name rate none earlier new = elim (Bool-cases (n == name)) [
    | inl same ↦ rw same refl
    | inr other ↦ rw other refl
  ]

  lookup-extend :
      (name : Text) (rates more : Assoc Rate)
      → IsMap more
      → lookup name (extend r rates more) ≡ or_else (lookup name more) (lookup name rates)
  unfolding extend lookup
  lookup-extend name rates [] h = refl
  lookup-extend name rates ((n, rate) ∷ more) (new, h) =
      lookup-extend name (insert n rate rates) more h
      ∙ (ap (or_else (lookup name more)) (lookup-insert name n rate rates)
          ∙ extend_step n name rate (lookup name more) (lookup name rates)
              (λ same. ap (λ k. lookup k more) (sym ((==_iff n name).0 same)) ∙ new))

  -- The decision that the documentation describes.
  abbrev pub documented :
      Assoc Rate → RunMode → Option Rate → Text → (parent_sampled : Option Bool) → Rate
  documented overrides mode configured name (some sampled) = r.from_bool sampled
  documented overrides mode configured name none =
      unwrap_or (unwrap_or (default_traces_sample_rate r mode) configured) (
        or_else (lookup name overrides)
          (if codes "muxa.task" == name then some r.zero_rate else none))

  module _ (axum : Axum) (out : Outside axum) where
    -- The sampler that the client runs with: a transaction that continues a trace keeps its parent's
    -- decision; another has the rate that the configuration names for it; without one, `muxa.task`
    -- is not sampled, and all others have the configured rate or that of the run mode.
    pub options_of-sampler :
        (tracing_bridge : Bool) (mode : RunMode) (cfg : SentryConfig Rate) (dsn : Option out.Dsn)
        (name : Text) (parent_sampled : Option Bool)
        → IsMap cfg.transaction_sample_rates
        → (options_of r axum out tracing_bridge mode cfg dsn).traces_sampler name parent_sampled
          ≡ documented cfg.transaction_sample_rates mode cfg.traces_sample_rate name parent_sampled
    unfolding options_of sample_rate_for lookup
    options_of-sampler tracing_bridge mode cfg dsn name (some sampled) h = refl
    options_of-sampler tracing_bridge mode cfg dsn name none h =
        ap (unwrap_or (unwrap_or (default_traces_sample_rate r mode) cfg.traces_sample_rate))
          (lookup-extend name (default_transaction_sample_rates r) cfg.transaction_sample_rates h)
