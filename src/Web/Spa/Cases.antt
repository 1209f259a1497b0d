-- ===== src/Web/Spa/Cases.antt =====
-- crates/muxa-web/src/spa.rs: what the fallback answers, by path.
use muxa.Prelude.{
  ◌≡◌, refl, ap, ◌∙◌, ◌⊎◌, inl, inr, Bool, true, false, not, ◌||◌, ◌&&◌, none, some, List, any,
  arith, Bool-cases,
}
use muxa.Prelude.Text.{Text, ◌==◌}
use muxa.Web.Spa.{
  index, immutable, no_cache_value, Asset, SpaConfig, under, Method, reads, Site, excluded,
  is_success, embedded, or_not_found, client_route, cache_value, put_header, cache_headers, router,
}
use muxa.Web.Spa.Paths.{
  IsUnder, IsExcluded, prefixes, under_iff, if_both, refused_cases, taken_of, lacks_of,
  outside_assets,
}

module _ (site : Site) (cfg : SpaConfig) where
  open site use {Headers, Response}

  -- `index.html`, for the same method and headers.
  abbrev pub index_page : Method → Headers → Response
  index_page method headers = or_not_found site cfg (site.files method index headers)

  router_missing_of :
      (assets : List Asset) (method : Method) (path : Text) (headers : Headers)
      → site.files method path headers ≡ none
      → router site cfg assets method path headers
        ≡ cache_headers site cfg (embedded assets) path (client_route site cfg method path headers)
  unfolding router
  router_missing_of assets method path headers missing = rw missing refl

  router_found_of :
      (assets : List Asset) (method : Method) (path : Text) (headers : Headers) (file : Response)
      → site.files method path headers ≡ some file
      → router site cfg assets method path headers
        ≡ cache_headers site cfg (embedded assets) path file
  unfolding router
  router_found_of assets method path headers file found = rw found refl

  client_route-refused :
      (method : Method) (path : Text) (headers : Headers)
      → (excluded cfg path || not (reads method)) ≡ true
      → client_route site cfg method path headers ≡ site.not_found
  unfolding client_route
  client_route-refused method path headers h = rw h refl

  client_route-index :
      (method : Method) (path : Text) (headers : Headers)
      → (excluded cfg path || not (reads method)) ≡ false
      → client_route site cfg method path headers ≡ index_page method headers
  unfolding client_route
  client_route-index method path headers h = rw h refl

  cache_headers-plain :
      (assets : Bool) (path : Text) (response : Response)
      → is_success (site.status response) ≡ false
      → cache_headers site cfg assets path response ≡ response
  unfolding cache_headers
  cache_headers-plain assets path response h = rw h refl

  cache_headers-success :
      (assets : Bool) (path : Text) (response : Response)
      → is_success (site.status response) ≡ true
      → cache_headers site cfg assets path response
        ≡ put_header site cfg (cache_value site cfg assets path) response
  unfolding cache_headers
  cache_headers-success assets path response h = rw h refl

  cache_value_cases :
      (assets : Bool) (path : Text)
      → under path cfg.assets_prefix ≡ false
      → (cache_value site cfg assets path ≡ none)
        ⊎ (cache_value site cfg assets path ≡ some no_cache_value)
  cache_value_cases assets path h = elim (Bool-cases (any (λ p. p == path) cfg.no_cache)) [
    | inl listed ↦ inr (rw listed refl)
    | inr new ↦ inl (rw (new, h) (if_both assets))
  ]

  cache_headers_cases :
      (assets : Bool) (path : Text) (response : Response)
      → under path cfg.assets_prefix ≡ false
      → (cache_headers site cfg assets path response ≡ response)
        ⊎ (cache_headers site cfg assets path response
            ≡ site.insert_cache_control no_cache_value response)
  cache_headers_cases assets path response h =
      elim (Bool-cases (is_success (site.status response))) [
        | inr failure ↦ inl (cache_headers-plain assets path response failure)
        | inl success ↦
            let e = cache_headers-success assets path response success in
            elim (cache_value_cases assets path h) [
              | inl none_set ↦ inl (e ∙ ap (λ v. put_header site cfg v response) none_set)
              | inr set ↦ inr (e ∙ ap (λ v. put_header site cfg v response) set)
            ]
      ]

  -- Where the plain 404 is no success, a request for no file of the build gets either that 404,
  -- namely where the path is excluded or the method is not GET or HEAD, or else `index.html`: as
  -- the file router gives it, or with `no-cache`, and never marked `immutable`.
  pub router-missing :
      (assets : List Asset) (method : Method) (path : Text) (headers : Headers)
      → is_success (site.status site.not_found) ≡ false
      → site.files method path headers ≡ none
      → let response = router site cfg assets method path headers in
        ((IsExcluded (prefixes cfg) path ⊎ (reads method ≡ false)) × (response ≡ site.not_found))
        ⊎ ((¬ IsExcluded (prefixes cfg) path)
            × (reads method ≡ true)
            × ((response ≡ index_page method headers)
                ⊎ (response
                    ≡ site.insert_cache_control no_cache_value (index_page method headers))))
  router-missing assets method path headers plain missing =
      let e = router_missing_of assets method path headers missing in
      elim (Bool-cases (excluded cfg path || not (reads method))) [
        | inl refused ↦ inl (
          refused_cases cfg method path refused,
          e
              ∙ ap (cache_headers site cfg (embedded assets) path)
                  (client_route-refused method path headers refused)
              ∙ cache_headers-plain (embedded assets) path site.not_found plain,
        )
        | inr taken ↦
            let (inside, read) = taken_of cfg method path taken in
            let kept =
              e
              ∙ ap (cache_headers site cfg (embedded assets) path)
                  (client_route-index method path headers taken) in
            inr (
              inside,
              read,
              elim (cache_headers_cases (embedded assets) path (index_page method headers)
                  (outside_assets cfg path inside)) [
                    | inl same ↦ inl (kept ∙ same)
                    | inr marked ↦ inr (kept ∙ marked)
                  ],
            )
      ]

  -- A file of the build that the file router answers with a success is answered as it does, except
  -- for `Cache-Control`: `no-cache` where its path is listed, and else `immutable` under the
  -- prefix of the assets where all the files are embedded.
  pub router-file :
      (assets : List Asset) (method : Method) (path : Text) (headers : Headers) (file : Response)
      → site.files method path headers ≡ some file
      → is_success (site.status file) ≡ true
      → let response = router site cfg assets method path headers in
        ((any (λ p. p == path) cfg.no_cache ≡ true)
          × (response ≡ site.insert_cache_control no_cache_value file))
        ⊎ ((any (λ p. p == path) cfg.no_cache ≡ false)
            × (embedded assets ≡ true)
            × IsUnder path cfg.assets_prefix
            × (response ≡ site.insert_cache_control immutable file))
        ⊎ ((any (λ p. p == path) cfg.no_cache ≡ false)
            × ((embedded assets ≡ false) ⊎ (¬ IsUnder path cfg.assets_prefix))
            × (response ≡ file))
  router-file assets method path headers file found success =
      let e : router site cfg assets method path headers
          ≡ put_header site cfg (cache_value site cfg (embedded assets) path) file =
        router_found_of assets method path headers file found
        ∙ cache_headers-success (embedded assets) path file success in
      elim (Bool-cases (any (λ p. p == path) cfg.no_cache)) [
        | inl listed ↦ inl (listed, e ∙ rw listed refl)
        | inr new ↦ elim (Bool-cases (embedded assets && under path cfg.assets_prefix)) [
          | inl both ↦ inr (
              inl (
                new,
                ground (arith, both),
                (under_iff path cfg.assets_prefix).0 (ground (arith, both)),
                e ∙ rw (new, both) refl,
              ))
          | inr lacks ↦ inr (
              inr (
                new,
                lacks_of (embedded assets) path cfg.assets_prefix lacks,
                e ∙ rw (new, lacks) refl,
              ))
        ]
      ]
