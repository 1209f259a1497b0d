-- ===== src/Pgmq/Tests.antt =====
-- Queues declared twice, and a database that refuses one; the unit tests of
-- crates/muxa-pgmq/src/lib.rs.
use muxa.Prelude.{◌≡◌, refl, true, List, [], ◌∷◌, ◌++◌, any, if◌then◌else◌}
use muxa.Prelude.Text.{Text, codes, str_ops, ◌==◌}
use muxa.Prelude.Effects.{Result, ok, err}
use muxa.Pgmq.{
  new_plugin, queues, lt_text, insert_sorted, sort_unstable, dedup, merge_queues, Pgmq, create_all,
  build_sqlx, build_diesel,
}
use muxa.Pgmq.Merged.{Increasing, merge_queues-Increasing}
use muxa.Pgmq.Created.{Ends, create_all-Ends}

pgmq : Unit {0}
unfolding queues lt_text insert_sorted sort_unstable dedup merge_queues create_all build_sqlx
    build_diesel str_ops
pgmq = tt

abbrev declared : List Text
declared = codes "mail" ∷ codes "audit" ∷ []

abbrev configured : List Text
configured = codes "mail" ∷ codes "billing" ∷ []

merges : merge_queues declared configured ≡ codes "audit" ∷ codes "billing" ∷ codes "mail" ∷ []
unfolding pgmq
merges = refl

abbrev create_in : Text → List Text → Result Text Unit × List Text
create_in name s =
    if name == codes "billing" then (err (codes "denied"), s) else (ok tt, s ++ name ∷ [])

-- The state is the queues that exist.
abbrev database : Pgmq
database = record {
  State = List Text;
  acquire = λ s. ok tt;
  install = λ s. (ok tt, s);
  create = create_in;
}

stops_at_failure :
    build_sqlx database (queues declared new_plugin) (record { queues = configured }) []
    ≡ (err (codes "pgmq: denied"), codes "audit" ∷ [])
unfolding pgmq
stops_at_failure = refl

merge_queues-Increasing_example :
    Increasing (codes "audit" ∷ codes "billing" ∷ codes "mail" ∷ [])
    × (any (λ q. q == codes "mail") (merge_queues declared configured) ≡ true)
unfolding pgmq
merge_queues-Increasing_example = merge_queues-Increasing declared configured (codes "mail")

create_all-Ends_example :
    Ends database
      (codes "audit" ∷ codes "billing" ∷ [])
      []
      (create_all database (codes "audit" ∷ codes "billing" ∷ []) [])
create_all-Ends_example = create_all-Ends database (codes "audit" ∷ codes "billing" ∷ []) []
