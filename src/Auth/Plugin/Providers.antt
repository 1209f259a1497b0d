-- ===== src/Auth/Plugin/Providers.antt =====
-- crates/muxa-auth/src/plugin.rs: which of the configured providers are on.
use muxa.Prelude.{
  ◌↔◌, ◌≡◌, refl, sym, ap, ◌∙◌, Bool, true, false, Option, none, some, [], ◌∷◌, arith, any,
  if◌then◌else◌,
}
use muxa.Prelude.Text.{Text, ◌==◌, is_some}
use muxa.Prelude.Text.Laws.{==_iff}
use muxa.Prelude.Assoc.{Assoc, lookup, keys, IsMap}
use muxa.Auth.Config.{ProviderConfig}
use muxa.Auth.Provider.OAuth2.{OAuth}
use muxa.Auth.Provider.Oidc.{OpenId}
use muxa.Auth.Provider.Dispatch.{Provider}
use muxa.Auth.Plugin.TurnedOn.{TurnsOn, turned_on_iff}
use muxa.Auth.Plugin.{has_provider, add_on, turned_on, build_providers}

any-keys :
    {P : Type 0} (id : Text) (m : Assoc P)
    → any (λ provider. provider == id) (keys m) ≡ is_some (lookup id m)
unfolding lookup
any-keys id [] = refl
any-keys id ((j, p) ∷ m) = ground (arith, any-keys id m)

module _ (o : OAuth) (i : OpenId) (as_redirect : o.Url → i.Url) (base_url at : Text) where
  -- What is configured under the id, turned on where it can be.
  abbrev pub on_of : Text → Option ProviderConfig → Option (Provider o i)
  on_of id none = none
  on_of id (some cfg) = turned_on o i as_redirect base_url at id cfg

  lookup-add_on :
      (id j : Text) (p : Option (Provider o i)) (rest : Assoc (Provider o i))
      (r : Option (Provider o i))
      → lookup id rest ≡ r
      → ((j == id) ≡ true → r ≡ none)
      → lookup id (add_on o i as_redirect j p rest) ≡ (if j == id then p else r)
  unfolding lookup
  lookup-add_on id j none rest r e new = ground (arith, e, new)
  lookup-add_on id j (some p) rest r e new = ground (arith, e)

  on_of_absent :
      (id j : Text) (cfgs : Assoc ProviderConfig)
      → lookup j cfgs ≡ none
      → (j == id) ≡ true
      → on_of id (lookup id cfgs) ≡ none
  on_of_absent id j cfgs new same =
      ap (λ k. on_of id (lookup k cfgs)) (sym ((==_iff j id).0 same)) ∙ ap (on_of id) new

  on_of_first :
      (id j : Text) (cfg : ProviderConfig) (found : Option ProviderConfig) (same : Bool)
      → (j == id) ≡ same
      → (if same then turned_on o i as_redirect base_url at j cfg else on_of id found)
        ≡ on_of id (if same then some cfg else found)
  on_of_first id j cfg found true e =
      ap (λ k. turned_on o i as_redirect base_url at k cfg) ((==_iff j id).0 e)
  on_of_first id j cfg found false e = refl

  lookup_built :
      (id : Text) (cfgs : Assoc ProviderConfig)
      → IsMap cfgs
      → lookup id (build_providers o i as_redirect base_url at cfgs) ≡ on_of id (lookup id cfgs)
  unfolding lookup build_providers
  lookup_built id [] h = refl
  lookup_built id ((j, cfg) ∷ cfgs) (new, h) =
      lookup-add_on id j (turned_on o i as_redirect base_url at j cfg)
        (build_providers o i as_redirect base_url at cfgs) (on_of id (lookup id cfgs))
        (lookup_built id cfgs h) (on_of_absent id j cfgs new)
      ∙ on_of_first id j cfg (lookup id cfgs) (j == id) refl

  -- The configuration under the id, and that it turns the provider on.
  abbrev pub IsOn : Text → Assoc ProviderConfig → Provider o i → Type 0
  IsOn id cfgs p =
      (cfg : ProviderConfig) × (lookup id cfgs ≡ some cfg)
      × TurnsOn o i as_redirect base_url at id cfg p

  IsOn-of_found :
      (id : Text) (cfgs : Assoc ProviderConfig) (p : Provider o i) (found : Option ProviderConfig)
      → lookup id cfgs ≡ found
      → on_of id found ≡ some p
      → IsOn id cfgs p
  IsOn-of_found id cfgs p none e h = absurd cc
  IsOn-of_found id cfgs p (some cfg) e h =
      (cfg, e, (turned_on_iff o i as_redirect base_url at id cfg p).0 h)

  -- A provider is on, as it was built, exactly where its configuration stands in the section with a
  -- client id, has a redirect URL of its own or else a base URL that is set to make one under, and
  -- the provider can be built with that URL. Whether the others can be built does not matter. The
  -- handle answers for an id as the routes look it up.
  pub lookup-build_providers :
      (id : Text) (cfgs : Assoc ProviderConfig) (p : Provider o i)
      → IsMap cfgs
      → let providers = build_providers o i as_redirect base_url at cfgs in
        ((lookup id providers ≡ some p) ↔ IsOn id cfgs p)
        × (has_provider (record { providers = keys providers }) id ≡ is_some (lookup id providers))
  unfolding has_provider
  lookup-build_providers id cfgs p h =
      let e = lookup_built id cfgs h in
      (
        (
          (λ on. IsOn-of_found id cfgs p (lookup id cfgs) refl (sym e ∙ on)),
          λ (cfg, found, turns).
              e
              ∙ (ap (on_of id) found
                  ∙ (turned_on_iff o i as_redirect base_url at id cfg p).1 turns),
        ),
        any-keys id (build_providers o i as_redirect base_url at cfgs),
      )
