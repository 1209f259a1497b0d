-- ===== src/Lib.antt =====
-- A verification library for muxa, a plugin framework for axum applications in Rust.
--
-- muxa builds an application from plugins. `AppBuilder` (crates/muxa-core/src/app.rs) adds them one
-- by one to a state and a build context (crates/muxa-core/src/ctx.rs), where they register routers,
-- tasks and the serve function, and attach tracing layers to one slot of the process; `run` composes the router, serves, and waits for the tasks. The
-- auth plugin (crates/muxa-auth) adds the routes of sign-ins at external providers, whose attempts
-- it keeps in the session, and the check against cross-origin requests.
--
-- Core models crates/muxa-core:
--   Core/Mode: crates/muxa-core/src/mode.rs, `RunMode` and its labels
--   Core/State: crates/muxa-core/src/state.rs, `HNil` and `HCons` (`HList`) and `Selector` (`Index`)
--   Core/Host: crates/muxa-core/src/host.rs, `db_pool_size_for`
--   Core/Ctx: crates/muxa-core/src/ctx.rs, `RouterRegistry` (`fallback` is `set_fallback` here)
--   Core/Config: crates/muxa-core/src/config.rs, `env_prefix` and `Sections::get_or_env`
--   Core/App: crates/muxa-core/src/app.rs, `with_plugin`, `run` and `join_tasks`, with `TaskRegistry`
--     and `set_serve_fn` of ctx.rs and the error type of error.rs
-- Auth models crates/muxa-auth:
--   Auth/Redirect: crates/muxa-auth/src/redirect.rs, `safe_next` and `with_query`
--   Auth/Pending: crates/muxa-auth/src/routes.rs, `remember` and `take`, with `PendingLogin` of
--     provider.rs
--   Auth/Identity: crates/muxa-auth/src/identity.rs, the data of identities and refusals
--   Auth/Routes: crates/muxa-auth/src/routes.rs, the handlers `start`, `callback` and `sign_out`
--   Auth/Csrf: crates/muxa-auth/src/csrf.rs, `guard` and its rule
--   Auth/Password: crates/muxa-auth/src/password.rs, `verify_blocking`
--   Auth/Config: crates/muxa-auth/src/config.rs, the `[auth]` section and its defaults
--   Auth/Provider: crates/muxa-auth/src/provider.rs, `OAuth2Provider` (OAuth2), `OidcProvider` (Oidc)
--     and `Provider` (Dispatch)
--   Auth/Plugin: crates/muxa-auth/src/plugin.rs, what `AuthPlugin` builds
--   Auth/Store: crates/muxa-auth/src/store.rs, `DieselSessionStore`
-- DieselSentry models crates/diesel-sentry/src/lib.rs:
--   DieselSentry/Sql: `write_sql` with its sink, `operation` and `db_system`
--   DieselSentry/Events: `SentryInstrumentation` (`start` and `finish` are `start_query` and
--     `finish_query`)
-- Telemetry models crates/muxa-telemetry/src/lib.rs: `TelemetryRegistry` and its slot.
-- Sentry models crates/muxa-sentry/src/lib.rs: `SentryPlugin` and its sampler.
-- Pgmq models crates/muxa-pgmq/src/lib.rs: `merge_queues` and both builds of `PgmqPlugin`.
-- Web models crates/muxa-web:
--   Web/Server: crates/muxa-web/src/lib.rs, `bind`
--   Web/Spa: crates/muxa-web/src/spa.rs, the fallback of a single-page app
-- Prelude has the library names in use, texts and maps.
--
-- A text is the list of its code points, a number is a native natural number; u32 arithmetic has
-- its saturation written out, and `saturating_sub` is the subtraction that stops at 0. White space
-- and control characters are Unicode's; the functions on letters are the ASCII ones. A `HashMap` is
-- an association list, whose order stands for the order of iteration. A handler takes the session
-- and gives the response and the session it leaves; each reading of the clock is an argument of its
-- own. What becomes of a background task is given by when and how it ends.
--
-- Fuel: `evict` has as much as there are entries, and each round removes one; `decimal` has one
-- more than the number, which each digit makes smaller; the loop of `create` over the session store has
-- enough where an id among as many as it tries is free. Everything else is structural recursion.
--
-- Code outside the repository is a parameter: axum's `Router`, tower-sessions, axum-login, the
-- providers' network exchanges and the check of an ID token, the app's resolver, the crate `url`,
-- figment, memory-serve, the password hashes, Postgres with the queries that diesel sends. What the theorems rely on is stated as laws: a session returns what was stored,
-- and a failed write leaves it as it was; signing in keeps the session's data and signing out drops
-- it; a value that figment joins is added where there is none and
-- united with a dictionary if it is one, and any other value is kept; the serializer of query strings
-- writes no control characters and no backslashes; a statement that fails changes nothing,
-- and one that succeeds changes the rows that its conditions name.
--
-- Not modelled: the loading of configuration files, the serve loop (crates/muxa-web/src/lib.rs), the
-- extractors of sessions, and the crates for connection pools, the export of traces and API
-- documentation, most of which call third-party libraries.
pub mod Auth
pub mod Core
pub mod DieselSentry
pub mod Pgmq
pub mod Prelude
pub mod Sentry
pub mod Telemetry
pub mod Web
