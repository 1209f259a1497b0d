-- ===== src/Web/Spa/Build.antt =====
-- `SpaPlugin::build` of crates/muxa-web/src/spa.rs.
use muxa.Prelude.{
  ◌≡◌, refl, ◌⊎◌, inl, inr, Bool, true, false, not, ◌||◌, some, List, [], ◌∷◌, any, arith,
  Bool-cases,
}
use muxa.Prelude.Text.{◌==◌}
use muxa.Prelude.Effects.{ok, err}
use muxa.Core.Ctx.{Axum, RouterRegistry, set_fallback, has_fallback, fallback_error}
use muxa.Web.Spa.{index, Asset, SpaConfig, no_assets, build}

abbrev pub has_index : List Asset → Bool
has_index assets = any (λ (asset : Asset). asset.route == index) assets

-- The guards of `build` in one: without an asset there is no index.
abbrev pub inert : SpaConfig → List Asset → Bool
inert cfg assets = not cfg.enabled || no_assets assets || not (has_index assets)

inert_cases :
    (cfg : SpaConfig) (assets : List Asset)
    → ((inert cfg assets ≡ true) × ((cfg.enabled ≡ false) ⊎ (has_index assets ≡ false)))
      ⊎ ((inert cfg assets ≡ false) × (cfg.enabled ≡ true) × (has_index assets ≡ true))
inert_cases cfg [] = inl (ground arith, inr refl)
inert_cases cfg (asset ∷ assets) = elim (Bool-cases cfg.enabled) [
  | inr off ↦ inl (ground (arith, off), inl off)
  | inl on ↦ elim (Bool-cases (has_index (asset ∷ assets))) [
    | inr missing ↦ inl (ground (arith, on, missing), inr missing)
    | inl there ↦ inr (ground (arith, on, there), on, there)
  ]
]

module _ (axum : Axum) (router : List Asset → SpaConfig → axum.Router) where
  -- A frontend that is switched off, or a build without `index.html` (an empty one among them),
  -- registers nothing and is no error. Any other becomes the app's fallback, unless there is one
  -- already: that one stays, and the build fails.
  build_cases :
      (assets : List Asset) (cfg : SpaConfig) (ctx : RouterRegistry axum)
      → let built = build axum router assets cfg ctx in
        (((cfg.enabled ≡ false) ⊎ (has_index assets ≡ false)) × (built ≡ (ok tt, ctx)))
        ⊎ ((cfg.enabled ≡ true)
            × (has_index assets ≡ true)
            × (((has_fallback axum ctx ≡ true) × (built ≡ (err (fallback_error axum), ctx)))
                ⊎ ((has_fallback axum ctx ≡ false)
                    × (built ≡ (ok tt, record ctx { fallback = some (router assets cfg) })))))
  unfolding build set_fallback
  build_cases assets cfg ctx = elim (inert_cases cfg assets) [
    | inl (skips, why) ↦ inl (why, rw skips refl)
    | inr (serves, on, there) ↦ elim (Bool-cases (has_fallback axum ctx)) [
      | inl taken ↦ inr (on, there, inl (taken, rw (serves, taken) refl))
      | inr free ↦ inr (on, there, inr (free, rw (serves, free) refl))
    ]
  ]
