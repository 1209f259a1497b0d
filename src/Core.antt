-- ===== src/Core.antt =====
-- crates/muxa-core/src: the plugin chain, its build context and its configuration.
pub mod Mode
pub mod Host
pub mod Ctx
pub mod App
pub mod Config
pub mod State
