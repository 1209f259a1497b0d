-- ===== src/Auth/Identity.antt =====
-- crates/muxa-auth/src/identity.rs: what a provider says of a person, and what the app answers.
-- serde_json's `Value` is a parameter.
use muxa.Prelude.{Bool, Option, none, List}
use muxa.Prelude.Text.{Text, codes}

pub record ExternalIdentity (Value : Type 0) : Type 0 where
  pub provider : Text
  pub subject : Text
  pub email : Option Text
  pub email_verified : Bool
  pub name : Option Text
  pub profile : Value

pub record ResolveContext (U : Type 0) : Type 0 where
  pub current_user : Option U
  pub link : Bool

pub record Resolved (U : Type 0) : Type 0 where
  pub user : U
  pub query : List (Text × Text)

-- A refused sign-in: the browser is sent back with `code` in the parameter.
pub record Refusal : Type 0 where
  pub code : Text
  pub param : Option Text

abbrev pub cancelled : Text
cancelled = codes "cancelled"

abbrev pub expired : Text
expired = codes "expired"

abbrev pub provider_failed : Text
provider_failed = codes "provider_failed"

abbrev pub unavailable : Text
unavailable = codes "unavailable"

abbrev pub signed_out : Text
signed_out = codes "signed_out"

abbrev pub failed : Text
failed = codes "failed"

abbrev pub refusal : Text → Refusal
refusal code = record { code = code; param = none }
