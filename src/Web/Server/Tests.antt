-- ===== src/Web/Server/Tests.antt =====
-- Hosts with a few addresses; the unit tests of crates/muxa-web/src/lib.rs.
use muxa.Prelude.{ℕ, ◌≡◌, refl, ◌⊎◌, true, none, List, [], ◌∷◌, eqb, if◌then◌else◌}
use muxa.Prelude.Text.{Text, codes, str_ops, ◌==◌}
use muxa.Prelude.Effects.{ok, err}
use muxa.Web.Server.{backlog_of, default_web_config, bind_host, Net, listen_on, bind}
use muxa.Web.Server.Bind.{Unbracketed, Binds, bind_cases}

-- An address is a number, and only 2 and 3 are free. The host `::1` has three, any other none.
abbrev loopback : Net
loopback = record {
  Addr = ℕ;
  Socket = ℕ;
  Listener = ℕ;
  Error = Text;
  lookup_host = λ host port. ok (if host == codes "::1" then 1 ∷ 2 ∷ 3 ∷ [] else []);
  is_ipv4 = λ addr. true;
  new_v4 = ok 0;
  new_v6 = ok 0;
  set_reuseaddr = λ socket. ok socket;
  bind = λ addr socket. if eqb addr 1 then err (codes "in use") else ok addr;
  listen = λ backlog socket. ok socket;
  no_address = λ host. codes "no address";
}

sockets : Unit {0}
unfolding bind_host listen_on bind str_ops
sockets = tt

bind_tests :
    (bind_host (codes "[::1]") ≡ codes "::1")
    × (bind_host (codes "0.0.0.0") ≡ codes "0.0.0.0")
    × (bind_host (codes "[::1") ≡ codes "[::1")
    × (bind loopback (codes "[::1]") 3000 1024 ≡ ok 2)
    × (bind loopback (codes "nowhere") 3000 1024 ≡ err (codes "no address"))
    × (backlog_of none default_web_config ≡ 1024)
unfolding sockets
bind_tests = (refl, refl, refl, refl, refl, refl)

bind_cases_example :
    (name : Text) × Unbracketed (codes "[::1]") name
    × (((e : Text) × (loopback.lookup_host name 3000 ≡ err e)
          × (bind loopback (codes "[::1]") 3000 1024 ≡ err e))
        ⊎ ((addrs : List ℕ) × (loopback.lookup_host name 3000 ≡ ok addrs)
            × Binds loopback
                (codes "[::1]")
                1024
                addrs
                none
                (bind loopback (codes "[::1]") 3000 1024)))
bind_cases_example = bind_cases loopback (codes "[::1]") 3000 1024
