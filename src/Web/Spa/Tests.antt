-- ===== src/Web/Spa/Tests.antt =====
-- A small site; the unit tests of crates/muxa-web/src/spa.rs.
use muxa.Prelude.{
  ℕ, ◌≡◌, refl, ◌⊎◌, true, false, Option, none, some, List, [], ◌∷◌, any, if◌then◌else◌,
}
use muxa.Prelude.Text.{Text, codes, str_ops, ◌==◌}
use muxa.Core.Ctx.{Axum, set_fallback}
use muxa.Web.Spa.{
  immutable, no_cache_value, Asset, SpaConfig, default_config, under, Method, get, other, reads,
  Site, embedded, router, build,
}
use muxa.Web.Spa.Paths.{IsUnder, IsExcluded, prefixes}
use muxa.Web.Spa.Cases.{index_page, router-missing, router-file}

record Page : Type 0 where
  code : ℕ
  body : Text
  cache : Option Text

abbrev page : Text → Page
page body = record { code = 200; body = body; cache = none }

abbrev missing : Page
missing = record { code = 404; body = []; cache = none }

-- The file router of a build with `index.html` and one fingerprinted script.
abbrev serve_files : Text → Option Page
serve_files path =
    if path == codes "/index.html"
    then some (page (codes "<html>"))
    else if path == codes "/assets/app.js"
    then some (page (codes "js"))
    else none

abbrev site : Site
site = record {
  Headers = Unit;
  Response = Page;
  status = λ (p : Page). p.code;
  insert_cache_control = λ value (p : Page). record p { cache = some value };
  not_found = missing;
  files = λ method path headers. serve_files path;
}

abbrev assets : List Asset
assets =
    record { route = codes "/index.html"; bytes = some [] }
    ∷ record { route = codes "/assets/app.js"; bytes = some [] }
    ∷ []

abbrev ask : Method → Text → Page
ask method path = router site default_config assets method path tt

spa : Unit {0}
unfolding router build under set_fallback str_ops
spa = tt

under_tests :
    (under (codes "/api") (codes "/api") ≡ true)
    × (under (codes "/api/x") (codes "/api/") ≡ true)
    × (under (codes "/apiary") (codes "/api") ≡ false)
    × (under (codes "/games") (codes "/") ≡ true)
unfolding spa
under_tests = (refl, refl, refl, refl)

router_tests :
    (ask get (codes "/games/1") ≡ page (codes "<html>"))
    × (ask get (codes "/api/nope") ≡ missing)
    × (ask get (codes "/assets/old.js") ≡ missing)
    × (ask (other (codes "POST")) (codes "/games/1") ≡ missing)
    × (ask get (codes "/assets/app.js")
        ≡ record { code = 200; body = codes "js"; cache = some immutable })
unfolding spa
router_tests = (refl, refl, refl, refl, refl)

router-missing_example :
    ((IsExcluded (prefixes default_config) (codes "/games/1") ⊎ (reads get ≡ false))
      × (ask get (codes "/games/1") ≡ missing))
    ⊎ ((¬ IsExcluded (prefixes default_config) (codes "/games/1"))
        × (reads get ≡ true)
        × ((ask get (codes "/games/1") ≡ index_page site default_config get tt)
            ⊎ (ask get (codes "/games/1")
                ≡ record (index_page site default_config get tt) { cache = some no_cache_value })))
unfolding spa
router-missing_example =
    router-missing site default_config assets get (codes "/games/1") tt refl refl

router-file_example :
    let listed = any (λ p. p == codes "/assets/app.js") default_config.no_cache in
    let response = ask get (codes "/assets/app.js") in
    let file = page (codes "js") in
    ((listed ≡ true) × (response ≡ record file { cache = some no_cache_value }))
    ⊎ ((listed ≡ false)
        × (embedded assets ≡ true)
        × IsUnder (codes "/assets/app.js") (codes "/assets")
        × (response ≡ record file { cache = some immutable }))
    ⊎ ((listed ≡ false)
        × ((embedded assets ≡ false) ⊎ (¬ IsUnder (codes "/assets/app.js") (codes "/assets")))
        × (response ≡ file))
unfolding spa
router-file_example =
    router-file site default_config assets get (codes "/assets/app.js") tt (page (codes "js")) refl
      refl

-- A router that is a name.
abbrev name_routers : Axum
name_routers = record {
  Router = Text;
  new = [];
  merge = λ a b. a;
  nest = λ a prefix b. a;
  fallback_service = λ a b. b;
}

abbrev spa_router : List Asset → SpaConfig → Text
spa_router _ _ = codes "spa"
