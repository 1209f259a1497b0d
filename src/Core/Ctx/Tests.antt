-- ===== src/Core/Ctx/Tests.antt =====
-- Registries of a few mounts, over routers that record how they were put together; the unit tests of
-- crates/muxa-core/src/ctx.rs.
use muxa.Prelude.{◌≡◌, refl, none, [], ◌∷◌, if◌then◌else◌, ◌||◌}
use muxa.Prelude.Text.{Text, codes, str_ops, ◌==◌, is_empty}
use muxa.Core.Ctx.{
  auto, manual, Axum, RouterRegistry, empty_registry, mount, mount_manual, set_fallback, layer,
  mounts, take_manual, add_routes, add_fallback, add_layers, compose,
}
use muxa.Core.Ctx.Compose.{compose-registered}

data Built : Type 0 where
  empty : Built
  handler : Text → Built
  merged : Built → Built → Built
  nested : Built → Text → Built → Built
  behind : Built → Built → Built
  wrapped : Text → Built → Built

abbrev routers : Axum
routers = record {
  Router = Built;
  new = empty;
  merge = merged;
  nest = nested;
  fallback_service = behind;
}

abbrev api : Built
api = handler (codes "api")

abbrev root : Built
root = handler (codes "root")

abbrev hidden : Built
hidden = handler (codes "hidden")

abbrev spa : Built
spa = handler (codes "spa")

abbrev trace : Built → Built
trace = wrapped (codes "trace")

-- An API under a prefix, a manual mount under the same one, a router at the root and a layer.
abbrev registry : RouterRegistry routers
registry = record {
  routes =
      record { prefix = codes "/api"; router = api; mount = auto }
      ∷ record { prefix = codes "/api"; router = hidden; mount = manual }
      ∷ record { prefix = codes "/"; router = root; mount = auto }
      ∷ [];
  fallback = none;
  layer_fns = trace ∷ [];
}

registries : Unit {0}
unfolding mount mount_manual set_fallback layer mounts take_manual compose str_ops
registries = tt

registry_tests :
    (compose routers registry ≡ trace (merged (nested empty (codes "/api") api) root))
    × ((take_manual routers (codes "/api") registry).0 ≡ hidden ∷ [])
    × (compose routers (set_fallback routers spa registry).1
        ≡ trace (behind (merged (nested empty (codes "/api") api) root) spa))
    × (layer routers trace (
          mount routers (codes "/") root (
            mount_manual routers
              (codes "/api")
              hidden
              (mount routers (codes "/api") api (empty_registry routers))))
        ≡ registry)
unfolding registries
registry_tests = (refl, refl, refl, refl)

compose-registered_example :
    (compose routers (mount routers (codes "/") api registry)
      ≡ add_layers routers
          (add_fallback routers none (
            if is_empty (codes "/") || codes "/" == codes "/"
            then merged (add_routes routers empty registry.routes) api
            else nested (add_routes routers empty registry.routes) (codes "/") api))
          (trace ∷ []))
    × (compose routers (layer routers (wrapped (codes "cors")) registry)
        ≡ wrapped (codes "cors") (compose routers registry))
compose-registered_example =
    compose-registered routers (codes "/") api (wrapped (codes "cors")) registry
