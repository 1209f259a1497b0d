-- ===== src/Auth/Provider/Contexts.antt =====
-- `map_err(|err| ProviderError::new(context, err))` of crates/muxa-auth/src/provider.rs changes no success.
use muxa.Prelude.{◌≡◌}
use muxa.Prelude.Text.{Text}
use muxa.Prelude.Effects.{Result, ok, err}
use muxa.Auth.Provider.{in_context, ErrorChain, chain_in}

module _ {A : Type 0} (context : Text) where
  pub ok-of_chain : (r : Result ErrorChain A) (a : A) → chain_in context r ≡ ok a → r ≡ ok a
  ok-of_chain (ok b) a h = cc
  ok-of_chain (err e) a h = absurd cc

  pub ok-of_context : (r : Result Text A) (a : A) → in_context context r ≡ ok a → r ≡ ok a
  ok-of_context (ok b) a h = h
  ok-of_context (err e) a h = absurd cc
