-- ===== src/Core/Config/Fallbacks.antt =====
-- `get_or_env` of crates/muxa-core/src/config.rs: which value a key has.
use mathlib.Core.Path.{subst}
use muxa.Prelude.{
  ◌≡◌, refl, sym, ap, ◌∙◌, ◌⊎◌, inl, inr, true, false, Option, none, some, List, [], ◌∷◌, keep_some,
  Bool-cases, if◌then◌else◌,
}
use muxa.Prelude.Text.{Text, ◌==◌, is_empty}
use muxa.Prelude.Effects.{Result, ok}
use muxa.Core.Config.{
  EnvFallback, FallbackValue, Env, value_of, read, Figments, join_all, with_fallbacks,
  extract_section, extract_set, get_or_env,
}

abbrev pub or_else {ℓ} : {A : Type ℓ} → Option A → Option A → Option A
or_else (some a) b = some a
or_else none b = b

or_else_assoc {ℓ} :
    {A : Type ℓ} (a b c : Option A) → or_else (or_else a b) c ≡ or_else a (or_else b c)
or_else_assoc (some a) b c = refl
or_else_assoc none b c = refl

-- What figment documents of `join`: at a key of a section that is a table or absent, which it stays, a
-- value is added where there is none; two dictionaries are united; and any other value that is there
-- is kept.
pub record IsJoin (f : Figments) : Type 1 where
  pub find : f.Figment → Text → Text → Option f.Value
  pub IsTable : f.Figment → Text → Type 0
  pub IsDict : f.Value → Type 0
  pub unite : f.Value → f.Value → f.Value
  pub find-join :
      (figment : f.Figment) (section key k : Text) (value : f.Value)
      → IsTable figment section
      → ((find figment section k ≡ none)
          × (find (f.join figment (section, key, value)) section k
              ≡ (if key == k then some value else none)))
        ⊎ ((there : f.Value) × (find figment section k ≡ some there)
            × (¬ (IsDict there × IsDict value))
            × (find (f.join figment (section, key, value)) section k ≡ some there))
        ⊎ ((there : f.Value) × (find figment section k ≡ some there)
            × IsDict there
            × IsDict value
            × (find (f.join figment (section, key, value)) section k
                ≡ some (if key == k then unite there value else there)))
  pub IsTable-join :
      (figment : f.Figment) (section key : Text) (value : f.Value)
      → IsTable figment section
      → IsTable (f.join figment (section, key, value)) section

read_unset :
    (env : Env) (section : Text) (fallback : EnvFallback) (fallbacks : List EnvFallback)
    → value_of section fallback (env fallback.var) ≡ none
    → keep_some (read env section) (fallback ∷ fallbacks) ≡ keep_some (read env section) fallbacks
read_unset env section fallback fallbacks e = rw (e, keep_some) refl

read_set :
    (env : Env) (section : Text) (fallback : EnvFallback) (fallbacks : List EnvFallback)
    (v : FallbackValue)
    → value_of section fallback (env fallback.var) ≡ some v
    → keep_some (read env section) (fallback ∷ fallbacks)
      ≡ v ∷ keep_some (read env section) fallbacks
read_set env section fallback fallbacks v e = rw (e, keep_some) refl

module _ (f : Figments) (laws : IsJoin f) where
  open f use {Figment, Value}

  -- The value that one variable gives to a key.
  abbrev pub gives : Text → Text → Option Text → Option Value
  gives key k none = none
  gives key k (some raw) =
      if is_empty raw then none else if key == k then some (f.parse raw) else none

  -- The first fallback of the key whose variable is set and not empty.
  abbrev pub first_set : Env → List EnvFallback → Text → Option Value
  first_set env [] k = none
  first_set env (fallback ∷ fallbacks) k =
      or_else (gives fallback.key k (env fallback.var)) (first_set env fallbacks k)

  -- No dictionary.
  abbrev pub IsPlain : Option Value → Type 0
  IsPlain none = Unit
  IsPlain (some value) = ¬ laws.IsDict value

  IsPlain-first : (a b : Option Value) → IsPlain (or_else a b) → IsPlain a
  IsPlain-first none b h = tt
  IsPlain-first (some a) b h = h

  -- Joining a value leaves one that is there and no dictionary.
  join-plain :
      (figment : Figment) (section key k : Text) (value : Value)
      → laws.IsTable figment section
      → IsPlain (laws.find figment section k)
      → laws.find (f.join figment (section, key, value)) section k
        ≡ or_else (laws.find figment section k) (if key == k then some value else none)
  join-plain figment section key k value table plain =
      elim (laws.find-join figment section key k value table) [
        | inl (absent, e) ↦
            e ∙ ap (λ o. or_else o (if key == k then some value else none)) (sym absent)
        | inr (inl (there, found, _, e)) ↦
            e ∙ ap (λ o. or_else o (if key == k then some value else none)) (sym found)
        | inr (inr (there, found, dict, _, _)) ↦ absurd (subst IsPlain found plain dict)
      ]

  step :
      (env : Env) (figment : Figment) (section k : Text) (fallback : EnvFallback)
      (fallbacks : List EnvFallback) (r : Option Text)
      → ((g : Figment)
          → laws.IsTable g section
          → IsPlain (or_else (laws.find g section k) (first_set env fallbacks k))
          → laws.find (join_all f g (keep_some (read env section) fallbacks)) section k
            ≡ or_else (laws.find g section k) (first_set env fallbacks k))
      → env fallback.var ≡ r
      → laws.IsTable figment section
      → IsPlain (
          or_else
            (laws.find figment section k)
            (or_else (gives fallback.key k r) (first_set env fallbacks k)))
      → laws.find
          (join_all f figment (keep_some (read env section) (fallback ∷ fallbacks)))
          section
          k
        ≡ or_else
            (laws.find figment section k)
            (or_else (gives fallback.key k r) (first_set env fallbacks k))
  unfolding join_all
  step env figment section k fallback fallbacks none rest e table plain =
      ap (λ set. laws.find (join_all f figment set) section k)
        (read_unset env section fallback fallbacks (ap (value_of section fallback) e))
      ∙ rest figment table plain
  step env figment section k fallback fallbacks (some raw) rest e table plain =
      elim (Bool-cases (is_empty raw)) [
        | inl blank ↦
            ap (λ set. laws.find (join_all f figment set) section k)
              (read_unset env section fallback fallbacks
                (ap (value_of section fallback) e ∙ rw blank refl))
            ∙ rest figment table (rw blank at plain)
            ∙ rw blank refl
        | inr filled ↦
            ap (λ set. laws.find (join_all f figment set) section k)
              (read_set env section fallback fallbacks
                (record { var = fallback.var; section = section; key = fallback.key; raw = raw })
                (ap (value_of section fallback) e ∙ rw filled refl))
            ∙ rest_filled raw (rw filled at plain)
            ∙ rw filled refl
      ]
    where
      rest_filled :
          (raw : Text)
          → IsPlain (
              or_else (laws.find figment section k) (
                or_else
                  (if fallback.key == k then some (f.parse raw) else none)
                  (first_set env fallbacks k)))
          → laws.find
              (join_all f
                (f.join figment (section, fallback.key, f.parse raw))
                (keep_some (read env section) fallbacks))
              section
              k
            ≡ or_else (laws.find figment section k) (
                or_else
                  (if fallback.key == k then some (f.parse raw) else none)
                  (first_set env fallbacks k))
      rest_filled raw plain =
          let joined =
            join-plain figment section fallback.key k (f.parse raw) table
              (IsPlain-first (laws.find figment section k) _ plain) in
          let all =
            ap (λ o. or_else o (first_set env fallbacks k)) joined
            ∙ or_else_assoc (laws.find figment section k)
                (if fallback.key == k then some (f.parse raw) else none)
                (first_set env fallbacks k) in
          rest (f.join figment (section, fallback.key, f.parse raw))
            (laws.IsTable-join figment section fallback.key (f.parse raw) table)
            (subst IsPlain (sym all) plain)
          ∙ all

  -- In a plugin's section that is a table or absent, a key has the value of the app's
  -- configuration where that sets it, whatever the environment holds, and else that of the key's
  -- first fallback whose variable is set and not empty, unless that value is a dictionary.
  pub with_fallbacks-find :
      (env : Env) (figment : Figment) (section k : Text) (fallbacks : List EnvFallback)
      → laws.IsTable figment section
      → IsPlain (or_else (laws.find figment section k) (first_set env fallbacks k))
      → laws.find (with_fallbacks f env figment section fallbacks) section k
        ≡ or_else (laws.find figment section k) (first_set env fallbacks k)
  unfolding with_fallbacks join_all
  with_fallbacks-find env figment section k [] table plain = or_none (laws.find figment section k)
    where
      or_none : (o : Option Value) → o ≡ or_else o none
      or_none none = refl
      or_none (some v) = refl
  with_fallbacks-find env figment section k (fallback ∷ fallbacks) table plain =
      step env figment section k fallback fallbacks (env fallback.var)
        (λ g t p. with_fallbacks-find env g section k fallbacks t p) refl table plain

module _ (f : Figments) {T E : Type 0} (extract_inner : f.Figment → Text → Result E T)
    (default : T) where
  open f use {Figment}

  extract_set_same :
      (env : Env) (figment : Figment) (prefix : Text) (fallbacks : List EnvFallback)
      (set : List FallbackValue)
      → keep_some (read env prefix) fallbacks ≡ set
      → extract_set f extract_inner default env figment prefix fallbacks set
        ≡ extract_section f extract_inner default
            (with_fallbacks f env figment prefix fallbacks)
            prefix
  unfolding with_fallbacks join_all
  extract_set_same env figment prefix fallbacks [] e =
      ap (λ set. extract_section f extract_inner default (join_all f figment set) prefix) (sym e)
  extract_set_same env figment prefix fallbacks (v ∷ set) e = refl

  get_or_env_of :
      (env : Env) (figment : Figment) (prefix : Text) (fallbacks : List EnvFallback)
      → is_empty prefix ≡ false
      → get_or_env f extract_inner default env figment prefix fallbacks
        ≡ extract_section f extract_inner default
            (with_fallbacks f env figment prefix fallbacks)
            prefix
  unfolding get_or_env
  get_or_env_of env figment prefix fallbacks named =
      ap
        (λ b.
          if b
          then ok default
          else extract_set f extract_inner default env figment prefix fallbacks
              (keep_some (read env prefix) fallbacks))
        named
      ∙ extract_set_same env figment prefix fallbacks _ refl

  extract_section-absent :
      (figment : Figment) (prefix : Text)
      → f.has_section figment prefix ≡ false
      → extract_section f extract_inner default figment prefix ≡ ok default
  unfolding extract_section
  extract_section-absent figment prefix e = rw e refl

  extract_section-present :
      (figment : Figment) (prefix : Text)
      → f.has_section figment prefix ≡ true
      → extract_section f extract_inner default figment prefix ≡ extract_inner figment prefix
  unfolding extract_section
  extract_section-present figment prefix e = rw e refl

  -- A plugin without a section has the default configuration. Any other reads its section with the
  -- fallbacks: the default if even so there is none, and else what is written there, an error
  -- included.
  get_or_env_cases :
      (env : Env) (figment : Figment) (prefix : Text) (fallbacks : List EnvFallback)
      → let section = with_fallbacks f env figment prefix fallbacks in
        let got = get_or_env f extract_inner default env figment prefix fallbacks in
        ((is_empty prefix ≡ true) × (got ≡ ok default))
        ⊎ ((is_empty prefix ≡ false) × (f.has_section section prefix ≡ false) × (got ≡ ok default))
        ⊎ ((is_empty prefix ≡ false)
            × (f.has_section section prefix ≡ true)
            × (got ≡ extract_inner section prefix))
  unfolding get_or_env
  get_or_env_cases env figment prefix fallbacks =
      let section = with_fallbacks f env figment prefix fallbacks in
      elim (Bool-cases (is_empty prefix)) [
        | inl nameless ↦ inl (nameless, rw nameless refl)
        | inr named ↦
            let e = get_or_env_of env figment prefix fallbacks named in
            elim (Bool-cases (f.has_section section prefix)) [
              | inr absent ↦
                  inr (inl (named, absent, e ∙ extract_section-absent section prefix absent))
              | inl present ↦
                  inr (inr (named, present, e ∙ extract_section-present section prefix present))
            ]
      ]
