-- ===== src/Web/Server.antt =====
-- crates/muxa-web/src/lib.rs: the address that the server listens on, and the web plugin. The
-- sockets of tokio are parameters.
pub mod Bind
mod Tests
use muxa.Prelude.{ℕ, Bool, true, false, Option, none, some, List, [], ◌∷◌, eqb, if◌then◌else◌}
use muxa.Prelude.Text.{Text, codes, strip_prefix}
use muxa.Prelude.Effects.{Result, ok, err, ◌>>=◌}

pub record WebConfig : Type 0 where
  pub host : Text
  pub port : ℕ
  pub banner : Bool
  pub backlog : Option ℕ
  pub tcp_nodelay : Bool

abbrev pub default_web_config : WebConfig
default_web_config = record {
  host = codes "0.0.0.0";
  port = 3000;
  banner = true;
  backlog = none;
  tcp_nodelay = true;
}

abbrev pub unwrap_or {ℓ} : {A : Type ℓ} → Option A → A → A
unwrap_or none a = a
unwrap_or (some a) _ = a

-- `backlog.unwrap_or_else(default_backlog)`; the host's ceiling is an argument.
abbrev pub backlog_of : Option ℕ → WebConfig → ℕ
backlog_of ceiling cfg = unwrap_or cfg.backlog (unwrap_or ceiling 1024)

-- `strip_suffix` with a `char`
unfoldable pub strip_suffix : ℕ → Text → Option Text
strip_suffix d [] = none
strip_suffix d (c ∷ []) = if eqb c d then some [] else none
strip_suffix d (c ∷ e ∷ s) = elim (strip_suffix d (e ∷ s)) [
  | none ↦ none
  | some inner ↦ some (c ∷ inner)
]

abbrev pub inner_of : Option Text → Option Text
inner_of none = none
inner_of (some inner) = strip_suffix b']' inner

unfoldable pub bind_host : Text → Text
unfolding strip_suffix
bind_host host = unwrap_or (inner_of (strip_prefix host (codes "["))) host

pub record Net : Type 1 where
  pub Addr : Type 0
  pub Socket : Type 0
  pub Listener : Type 0
  pub Error : Type 0
  pub lookup_host : Text → ℕ → Result Error (List Addr)
  pub is_ipv4 : Addr → Bool
  pub new_v4 : Result Error Socket
  pub new_v6 : Result Error Socket
  pub set_reuseaddr : Socket → Result Error Socket
  pub bind : Addr → Socket → Result Error Socket
  pub listen : ℕ → Socket → Result Error Listener
  pub no_address : Text → Error

module _ (net : Net) where
  open net use {Addr, Socket, Listener, Error}

  unfoldable pub listen_on : Addr → ℕ → Result Error Listener
  listen_on addr backlog = do
    socket ← if net.is_ipv4 addr then net.new_v4 else net.new_v6
    reusable ← net.set_reuseaddr socket
    bound ← net.bind addr reusable
    net.listen backlog bound

  -- The `for` loop, with the last error so far.
  unfoldable pub bind_from : Text → ℕ → List Addr → Option Error → Result Error Listener
  bind_from host backlog [] last_err = err (unwrap_or last_err (net.no_address host))
  bind_from host backlog (addr ∷ addrs) last_err = elim (listen_on addr backlog) [
    | ok listener ↦ ok listener
    | err e ↦ bind_from host backlog addrs (some e)
  ]

  unfoldable pub bind : Text → ℕ → ℕ → Result Error Listener
  unfolding bind_from
  bind host port backlog = elim (net.lookup_host (bind_host host) port) [
    | err e ↦ err e
    | ok addrs ↦ bind_from host backlog addrs none
  ]
