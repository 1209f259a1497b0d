-- ===== src/Auth/Plugin/TurnedOn.antt =====
-- crates/muxa-auth/src/plugin.rs: what turns a provider on.
use muxa.Prelude.{
  ◌≡◌, refl, sym, ap, ◌∙◌, ◌⊎◌, inl, inr, ◌↔◌, Bool, true, false, Option, none, some, if◌then◌else◌,
}
use muxa.Prelude.Text.{Text, is_empty}
use muxa.Prelude.Effects.{Result, ok, err}
use muxa.Auth.Config.{ProviderConfig, client_id}
use muxa.Auth.Provider.OAuth2.{OAuth}
use muxa.Auth.Provider.Oidc.{OpenId}
use muxa.Auth.Provider.Dispatch.{Provider, from_config}
use muxa.Auth.Plugin.{provider_redirect, callback_url, redirect_or, on, from_redirect, turned_on}

none-ne-some : {A : Type 0} {a : A} → ◌≡◌ {A = Option A} none (some a) → ⊥
none-ne-some h = cc

module _ (o : OAuth) (i : OpenId) (as_redirect : o.Url → i.Url) (base_url at : Text) where
  -- A configured redirect URL comes first; without one, one is made under a base URL that is set.
  abbrev pub RedirectsTo : Text → ProviderConfig → Text → Type 0
  RedirectsTo id cfg redirect =
      (provider_redirect cfg ≡ some redirect)
      ⊎ ((provider_redirect cfg ≡ none)
          × (is_empty base_url ≡ false)
          × (redirect ≡ callback_url base_url at id))

  -- There is a client id and a redirect URL, and the provider can be built with it.
  abbrev pub TurnsOn : Text → ProviderConfig → Provider o i → Type 0
  TurnsOn id cfg p =
      (is_empty (client_id cfg) ≡ false)
      × ((redirect : Text) × RedirectsTo id cfg redirect
          × (from_config o i as_redirect id cfg redirect ≡ ok (some p)))

  built_of_on :
      (r : Result Text (Option (Provider o i))) (p : Provider o i)
      → on o i as_redirect r ≡ some p
      → r ≡ ok (some p)
  built_of_on (ok q) p h = ap ok h
  built_of_on (err e) p h = absurd (none-ne-some h)

  redirect_of_on :
      (id : Text) (cfg : ProviderConfig) (p : Provider o i) (own : Option Text)
      → provider_redirect cfg ≡ own
      → from_redirect o i as_redirect id cfg (redirect_or base_url at id own) ≡ some p
      → (redirect : Text) × RedirectsTo id cfg redirect
        × (from_config o i as_redirect id cfg redirect ≡ ok (some p))
  redirect_of_on id cfg p (some url) e h =
      (url, inl e, built_of_on (from_config o i as_redirect id cfg url) p h)
  redirect_of_on id cfg p none e h = of (is_empty base_url) refl h
    where
      of :
          (unset : Bool)
          → is_empty base_url ≡ unset
          → from_redirect o i as_redirect id cfg
              (if unset then none else some (callback_url base_url at id))
            ≡ some p
          → (redirect : Text) × RedirectsTo id cfg redirect
            × (from_config o i as_redirect id cfg redirect ≡ ok (some p))
      of true e' h' = absurd (none-ne-some h')
      of false e' h' = (
        callback_url base_url at id,
        inr (e, e', refl),
        built_of_on (from_config o i as_redirect id cfg (callback_url base_url at id)) p h',
      )

  TurnsOn-of_turned :
      (id : Text) (cfg : ProviderConfig) (p : Provider o i) (off : Bool)
      → is_empty (client_id cfg) ≡ off
      → (if off
          then none
          else from_redirect o i as_redirect id cfg
              (redirect_or base_url at id (provider_redirect cfg)))
        ≡ some p
      → TurnsOn id cfg p
  TurnsOn-of_turned id cfg p true e h = absurd (none-ne-some h)
  TurnsOn-of_turned id cfg p false e h = (e, redirect_of_on id cfg p (provider_redirect cfg) refl h)

  redirect_or-eq :
      (id : Text) (cfg : ProviderConfig) (redirect : Text)
      → RedirectsTo id cfg redirect
      → redirect_or base_url at id (provider_redirect cfg) ≡ some redirect
  redirect_or-eq id cfg redirect (inl own) = ap (redirect_or base_url at id) own
  redirect_or-eq id cfg redirect (inr (unset, set, made)) =
      ap (redirect_or base_url at id) unset
      ∙ (ap (λ b. if b then none else some (callback_url base_url at id)) set ∙ ap some (sym made))

  pub turned_on_iff :
      (id : Text) (cfg : ProviderConfig) (p : Provider o i)
      → (turned_on o i as_redirect base_url at id cfg ≡ some p) ↔ TurnsOn id cfg p
  unfolding turned_on
  turned_on_iff id cfg p = (
    TurnsOn-of_turned id cfg p (is_empty (client_id cfg)) refl,
    λ (set, (redirect, to, built)).
        ap
          (λ off.
            if off
            then none
            else from_redirect o i as_redirect id cfg
                (redirect_or base_url at id (provider_redirect cfg)))
          set
        ∙ (ap (from_redirect o i as_redirect id cfg) (redirect_or-eq id cfg redirect to)
            ∙ ap (on o i as_redirect) built),
  )
