-- ===== src/Core/Config/Tests.antt =====
-- Figments that are functions; the unit tests of crates/muxa-core/src/config.rs.
use muxa.Prelude.{Bool, ◌≡◌, refl, ◌⊎◌, inl, inr, Option, none, some, List, [], ◌∷◌, if◌then◌else◌}
use muxa.Prelude.Text.{Text, codes, str_ops, ◌==◌, is_some}
use muxa.Prelude.Effects.{Result, ok, err}
use muxa.Core.Config.{env_prefix, EnvFallback, Env, Figments, with_fallbacks, get_or_env}
use muxa.Core.Config.Fallbacks.{or_else, IsJoin, with_fallbacks-find}

-- Keys and values in one section, `sqlx`.
abbrev Table : Type 0
Table = Text → Option Text

abbrev tables : Figments
tables = record {
  Figment = Table;
  Value = Text;
  parse = λ raw. raw;
  join = λ table entry k. or_else (table k) (if entry.1 == k then some entry.2 else none);
  has_section = λ table section. is_some (table (codes "url"));
}

join_law :
    (same : Bool) (there new : Option Text)
    → ((there ≡ none) × (or_else there new ≡ new))
      ⊎ ((a : Text) × (there ≡ some a) × (¬ (⊥ × ⊥)) × (or_else there new ≡ some a))
      ⊎ ((a : Text) × (there ≡ some a) × ⊥ × ⊥ × (or_else there new ≡ some (if same then a else a)))
join_law same none new = inl (refl, refl)
join_law same (some a) new = inr (inl (a, refl, λ (x, _). x, refl))

tables-IsJoin : IsJoin tables
tables-IsJoin = record {
  find = λ table section k. table k;
  IsTable = λ table section. Unit;
  IsDict = λ value. ⊥;
  unite = λ there value. there;
  find-join = λ table section key k value t.
      join_law (key == k) (table k) (if key == k then some value else none);
  IsTable-join = λ table section key value t. tt;
}

abbrev empty_table : Table
empty_table k = none

abbrev fallbacks : List EnvFallback
fallbacks =
    record { var = codes "SQLX_URL"; key = codes "url" }
    ∷ record { var = codes "DATABASE_URL"; key = codes "url" }
    ∷ []

abbrev environment : Env
environment var =
    if var == codes "DATABASE_URL"
    then some (codes "pg")
    else if var == codes "SQLX_URL"
    then some []
    else none

abbrev extract : Table → Text → Result Unit Text
extract table section = elim (table (codes "url")) [ none ↦ err tt | some url ↦ ok url ]

configuration : Unit {0}
unfolding env_prefix with_fallbacks get_or_env str_ops
configuration = tt

config_tests :
    (env_prefix (codes "katago-ws") ≡ codes "KATAGO_WS_")
    × (get_or_env tables extract (codes "none") environment empty_table (codes "sqlx") fallbacks
        ≡ ok (codes "pg"))
    × (get_or_env tables extract
          (codes "none")
          environment
          (λ k. some (codes "own"))
          (codes "sqlx")
          fallbacks
        ≡ ok (codes "own"))
    × (get_or_env tables extract (codes "none") environment empty_table (codes "sqlx") []
        ≡ ok (codes "none"))
unfolding configuration
config_tests = (refl, refl, refl, refl)

with_fallbacks-find_example :
    with_fallbacks tables environment empty_table (codes "sqlx") fallbacks (codes "url")
    ≡ some (codes "pg")
unfolding configuration tables-IsJoin
with_fallbacks-find_example =
    with_fallbacks-find tables tables-IsJoin environment empty_table (codes "sqlx") (codes "url")
      fallbacks tt (λ x. x)
