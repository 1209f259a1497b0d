-- ===== src/DieselSentry/Sql/Tests.antt =====
-- Rendered queries: the unit tests of crates/diesel-sentry/src/lib.rs.
use muxa.Prelude.{◌≡◌, refl, true, false}
use muxa.Prelude.Text.{
  codes, str_ops, trim_end, trim_start, to_upper, split_once, eq_ignore_ascii_case, contains,
}
use muxa.DieselSentry.Sql.{
  binds_marker, Display, ends, writes, split_at, before_first, write_str, render, write_sql,
  first_word, operation, db_system,
}
use muxa.DieselSentry.Sql.Cut.{rendered}
use muxa.DieselSentry.Sql.Marker.{write_sql_lem}

rendering : Unit {0}
unfolding split_at before_first write_str render write_sql first_word operation db_system trim_end
    trim_start to_upper split_once eq_ignore_ascii_case str_ops
rendering = tt

-- The marker stands across two chunks, and the formatting ignores that it was cut off.
abbrev insert : Display
insert = writes (codes "INSERT INTO users VALUES (?) --") (λ ok1.
    writes (codes " binds: [")
      (λ ok2. writes (codes "secret") (λ ok3. writes (codes " -- binds:") (λ ok4. ends true))))

cuts_across_chunks : write_sql insert ≡ codes "INSERT INTO users VALUES (?)"
unfolding rendering
cuts_across_chunks = refl

keeps_plain_sql :
    write_sql (writes (codes "SELECT 1 -- bind ") (λ accepted. ends accepted))
    ≡ codes "SELECT 1 -- bind"
unfolding rendering
keeps_plain_sql = refl

takes_leading_keyword : operation (codes "  select 1") ≡ codes "SELECT"
unfolding rendering
takes_leading_keyword = refl

reads_scheme_only :
    (db_system (codes "postgres://u:p@h/db") ≡ codes "postgresql")
    × (db_system (codes "MariaDB://h") ≡ codes "mysql")
    × (db_system (codes "app.db") ≡ codes "other_sql")
unfolding rendering
reads_scheme_only = (refl, refl, refl)

write_sql_lem_example :
    (write_sql insert ≡ codes "INSERT INTO users VALUES (?)")
    × (contains (write_sql insert) binds_marker ≡ false)
unfolding rendering rendered
write_sql_lem_example = write_sql_lem insert
