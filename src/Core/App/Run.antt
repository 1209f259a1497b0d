-- ===== src/Core/App/Run.antt =====
-- `with_plugin` and `run` of crates/muxa-core/src/app.rs, and `set_serve_fn` of
-- crates/muxa-core/src/ctx.rs.
use muxa.Prelude.{Bool, true, false, ◌⊎◌, inl, inr, ◌≡◌, none, some, [], refl, ◌∙◌, ap}
use muxa.Prelude.Text.{Text}
use muxa.Prelude.Effects.{ok, err, Result-cases}
use muxa.Core.App.{
  Error, plugin_build, config, io, other, wrap, Plugin, with_plugin, ServeFn, BuildCtx,
  already_registered, set_serve_fn, no_serve, run,
}

module _ (Router : Type 0) where
  -- In a context without a serve function, `run` fails and calls nothing; and of two serve
  -- functions registered one after the other the second is refused with an error, and `run` is
  -- what it was with the first, whose result it has.
  serve_once :
      (ctx : BuildCtx Router) (first second : ServeFn Router)
      → ctx.serve_fn ≡ none
      → let (r₁, ctx₁) = set_serve_fn Router first ctx in
        let (r₂, ctx₂) = set_serve_fn Router second ctx₁ in
        (run Router ctx ≡ (err no_serve, []))
        × (r₁ ≡ ok tt)
        × (r₂ ≡ err already_registered)
        × (run Router ctx₂ ≡ run Router ctx₁)
        × ((run Router ctx₁).0 ≡ (first ctx.router).0)
  unfolding run set_serve_fn
  serve_once ctx first second h =
      let stored : (set_serve_fn Router first ctx).1 ≡ record ctx { serve_fn = some first } =
        rw (h, set_serve_fn) refl in
      let first_run : (run Router (set_serve_fn Router first ctx).1).0 ≡ (first ctx.router).0 =
        ap (λ c. (run Router c).0) stored ∙ refl in
      (
        rw (h, run) refl,
        rw (h, set_serve_fn) refl,
        rw (h, set_serve_fn) refl,
        rw (h, set_serve_fn) refl,
        first_run,
      )

abbrev pub names_plugin : Error → Bool
names_plugin (plugin_build plugin source) = true
names_plugin (config e) = false
names_plugin (io e) = false
names_plugin (other e) = false

-- How a failed `build` is reported: an error that names a plugin as it is, any other under the name
-- of this one.
abbrev pub Reports : Text → Error → Error → Type 0
Reports name e reported =
    ((names_plugin e ≡ true) × (reported ≡ e))
    ⊎ ((names_plugin e ≡ false) × (reported ≡ plugin_build name e))

wrap-Reports : (name : Text) (e : Error) → Reports name e (wrap name e)
wrap-Reports name (plugin_build plugin source) = inl (refl, refl)
wrap-Reports name (config e) = inr (refl, refl)
wrap-Reports name (io e) = inr (refl, refl)
wrap-Reports name (other e) = inr (refl, refl)

module _ {S C : Type 0} (p : Plugin S C) (state : S) (ctx : C) where
  -- One of three: the configuration can't be read, and its error is what `with_plugin` returns; or
  -- the configuration is read and `build` fails with it, and its error is returned if it names a
  -- plugin already, and else under this plugin's name; or `build` gives an output, which is put in
  -- front of the state, with the context `build` leaves.
  pub with_plugin_cases :
      ((e : Error) × (p.read_config ctx ≡ err e) × (with_plugin p (state, ctx) ≡ err e))
      ⊎ ((cfg : p.Config) × (e : Error) × (reported : Error) × (p.read_config ctx ≡ ok cfg)
          × ((p.build cfg state ctx).0 ≡ err e)
          × (with_plugin p (state, ctx) ≡ err reported)
          × Reports p.name e reported)
      ⊎ ((cfg : p.Config) × (out : p.Output) × (p.read_config ctx ≡ ok cfg)
          × ((p.build cfg state ctx).0 ≡ ok out)
          × (with_plugin p (state, ctx) ≡ ok ((out, state), (p.build cfg state ctx).1)))
  unfolding with_plugin
  with_plugin_cases = elim (Result-cases (p.read_config ctx)) [
    | inr (e, h) ↦ inl (e, h, rw (h, with_plugin) refl)
    | inl (cfg, h) ↦ elim (Result-cases (p.build cfg state ctx).0) [
      | inr (e, k) ↦
          inr
            (inl (cfg, e, wrap p.name e, h, k, rw (h, k, with_plugin) refl, wrap-Reports p.name e))
      | inl (out, k) ↦ inr (inr (cfg, out, h, k, rw (h, k, with_plugin) refl))
    ]
  ]
