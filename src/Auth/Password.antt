-- ===== src/Auth/Password.antt =====
-- crates/muxa-auth/src/password.rs: which passwords match. The hash functions of the crates
-- password-auth and bcrypt are parameters; the checks that are made are recorded, since each is slow
-- on purpose.
pub mod Verify
mod Tests
use muxa.Prelude.{Bool, true, false, ◌||◌, Option, none, some, List, [], ◌∷◌, any, if◌then◌else◌}
use muxa.Prelude.Text.{Text, codes, is_empty, starts_with}
use muxa.Prelude.Effects.{Result, ok, err}

pub data Verified : Type 0 where
  valid needs_rehash invalid : Verified

abbrev pub is_valid : Verified → Bool
is_valid valid = true
is_valid needs_rehash = true
is_valid invalid = false

pub record Hashes : Type 1 where
  pub Error : Type 0
  pub verify_password : Text → Text → Result Error Unit
  pub is_hash_obsolete : Text → Result Error Bool
  pub bcrypt_verify : Text → Text → Result Error Bool
  -- A hash that `generate_hash` gave for some text, once.
  pub dummy_hash : Text

-- A check of the password against a hash.
pub data Check : Type 0 where
  argon2 bcrypt : (hash : Text) → Check

abbrev pub non_empty : Option Text → Option Text
non_empty none = none
non_empty (some hash) = if is_empty hash then none else some hash

unfoldable pub is_bcrypt : Text → Bool
is_bcrypt hash =
    any (λ prefix. starts_with hash prefix) (codes "$2a$" ∷ codes "$2b$" ∷ codes "$2y$" ∷ [])

module _ (h : Hashes) where
  -- `unwrap_or(true)`
  abbrev pub obsolete : Result h.Error Bool → Bool
  obsolete (ok b) = b
  obsolete (err e) = true

  abbrev pub of_bcrypt : Result h.Error Bool → Verified
  of_bcrypt (ok true) = needs_rehash
  of_bcrypt (ok false) = invalid
  of_bcrypt (err e) = invalid

  abbrev pub of_argon2 : Text → Result h.Error Unit → Verified
  of_argon2 stored (ok _) = if obsolete (h.is_hash_obsolete stored) then needs_rehash else valid
  of_argon2 stored (err e) = invalid

  -- The outcome, and the checks that were made.
  unfoldable pub verify_blocking : Text → Option Text → Verified × List Check
  unfolding is_bcrypt
  verify_blocking password stored = elim (non_empty stored) [
    | none ↦ (invalid, argon2 h.dummy_hash ∷ [])
    | some stored ↦
        if is_bcrypt stored
        then (of_bcrypt (h.bcrypt_verify password stored), bcrypt stored ∷ [])
        else (of_argon2 stored (h.verify_password password stored), argon2 stored ∷ [])
  ]
