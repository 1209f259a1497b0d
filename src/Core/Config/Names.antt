-- ===== src/Core/Config/Names.antt =====
-- `env_prefix` of crates/muxa-core/src/config.rs.
use muxa.Prelude.{
  ℕ, ◌+◌, ◌≡◌, refl, ◌∙◌, ap, Bool, true, ◌||◌, [], ◌∷◌, ◌++◌, map, length, All, eqb, arith,
}
use muxa.Prelude.Text.{Text, is_upper, is_digit}
use muxa.Core.Config.{env_char, env_prefix}

abbrev pub is_env_char : ℕ → Bool
is_env_char c = is_upper c || is_digit c || eqb c b'_'

env_char-is_env_char : (c : ℕ) → is_env_char (env_char c) ≡ true
env_char-is_env_char c = ground arith

env_char_idempotent : (c : ℕ) → env_char (env_char c) ≡ env_char c
env_char_idempotent c = ground arith

-- The prefix of an app's variables is a name that a shell takes but for a digit in front, one
-- character longer than the app's, and the prefix of a prefix only has one more underscore.
env_prefix_lem :
    (app_name : Text)
    → All (λ c. is_env_char c ≡ true) (env_prefix app_name)
      × (length (env_prefix app_name) ≡ length app_name + 1)
      × (env_prefix (env_prefix app_name) ≡ env_prefix app_name ++ b'_' ∷ [])
unfolding env_prefix
env_prefix_lem [] = ((refl, tt), refl, refl)
env_prefix_lem (c ∷ s) =
    let (chars, size, again) = env_prefix_lem s in
    (
      (env_char-is_env_char c, chars),
      omega (arith, size),
      ap (λ d. d ∷ map env_char (map env_char s ++ b'_' ∷ []) ++ b'_' ∷ []) (env_char_idempotent c)
          ∙ ap {B = Text} (λ r. env_char c ∷ r) again,
    )
