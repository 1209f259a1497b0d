-- ===== src/DieselSentry.antt =====
-- crates/diesel-sentry/src/lib.rs: query spans from a connection's events.
pub mod Sql
pub mod Events
