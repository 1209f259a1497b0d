-- ===== src/Web.antt =====
-- crates/muxa-web: the server, and the fallback of single-page apps.
pub mod Spa
pub mod Server
