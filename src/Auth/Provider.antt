-- ===== src/Auth/Provider.antt =====
-- crates/muxa-auth/src/provider.rs: plain OAuth2 providers, and what both kinds share.
--
-- Parameters: the crates `oauth2`, `url`, `reqwest` and `serde_json`. A client is what its builder
-- was given. Randomness is an argument: the state and the verifier drawn.
pub mod OAuth2
pub mod Contexts
pub mod Checks
pub mod Oidc
pub mod Dispatch
pub mod Discovery
pub mod Drawn
pub mod UserInfo
pub mod Identified
pub mod Sample
mod Tests
use muxa.Prelude.{Bool, true, false, Option, none, some, List, [], ◌∷◌, ◌++◌, if◌then◌else◌}
use muxa.Prelude.Text.{Text, codes, is_empty}
use muxa.Prelude.Effects.{Result, ok, err}
use muxa.Auth.Identity.{ExternalIdentity}
use muxa.Auth.Pending.{PendingLogin}
use muxa.Auth.Routes.{Authorization}

-- `ProviderError::new`: the context and what the error says.
abbrev pub provider_error : Text → Text → Text
provider_error context e = context ++ (codes ": " ++ e)

-- `map_err(|err| ProviderError::new(context, err))`
abbrev pub in_context : {A : Type 0} → Text → Result Text A → Result Text A
in_context context (ok a) = ok a
in_context context (err e) = err (provider_error context e)

-- An error as what it says, and what its sources say.
pub record ErrorChain : Type 0 where
  pub message : Text
  pub sources : List Text

abbrev pub push_sources : Text → List Text → Text
push_sources out [] = out
push_sources out (cause ∷ causes) = push_sources (out ++ (codes ": " ++ cause)) causes

unfoldable pub error_chain : ErrorChain → Text
error_chain e = push_sources e.message e.sources

-- `map_err(|err| ProviderError::new(context, error_chain(&err)))`
abbrev pub chain_in : {A : Type 0} → Text → Result ErrorChain A → Result Text A
chain_in context (ok a) = ok a
chain_in context (err e) = err (provider_error context (error_chain e))

-- What the code reads of a JSON value: a string, a number as it is printed, or neither.
pub data Scalar : Type 0 where
  string number : Text → Scalar
  neither : Scalar

-- `secret.is_empty()`: no secret for a public client.
abbrev pub secret_of : Text → Option Text
secret_of secret = if is_empty secret then none else some secret
