-- ===== src/Auth.antt =====
-- crates/muxa-auth/src: cookie sessions and sign-in.
pub mod Redirect
pub mod Pending
pub mod Identity
pub mod Routes
pub mod Csrf
pub mod Password
pub mod Config
pub mod Provider
pub mod Plugin
pub mod Store
