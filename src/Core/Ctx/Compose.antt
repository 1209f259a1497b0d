-- ===== src/Core/Ctx/Compose.antt =====
-- `RouterRegistry::compose` of crates/muxa-core/src/ctx.rs.
use muxa.Prelude.{
  ◌≡◌, refl, sym, ap, ◌∙◌, true, false, not, ◌||◌, some, List, [], ◌∷◌, ◌++◌, retain, if◌then◌else◌,
  arith, Bool-cases, inl, inr,
}
use muxa.Prelude.Text.{Text, codes, ◌==◌, is_empty}
use muxa.Prelude.Effects.{ok, err}
use muxa.Core.Ctx.{
  Axum, MountEntry, RouterRegistry, mount, mount_manual, has_fallback, fallback_error, set_fallback,
  layer, wanted, take_manual, add_route, add_routes, add_fallback, add_layers, compose,
}

module _ (axum : Axum) where
  open axum use {Router}

  add_routes-append :
      (out : Router) (xs ys : List (MountEntry axum))
      → add_routes axum out (xs ++ ys) ≡ add_routes axum (add_routes axum out xs) ys
  unfolding add_routes
  add_routes-append out [] ys = refl
  add_routes-append out (x ∷ xs) ys = add_routes-append (add_route axum out x) xs ys

  add_layers-append :
      (out : Router) (xs ys : List (Router → Router))
      → add_layers axum out (xs ++ ys) ≡ add_layers axum (add_layers axum out xs) ys
  unfolding add_layers
  add_layers-append out [] ys = refl
  add_layers-append out (x ∷ xs) ys = add_layers-append (x out) xs ys

  add_route-wanted :
      (prefix : Text) (entry : MountEntry axum) (out : Router)
      → wanted axum prefix entry ≡ true
      → add_route axum out entry ≡ out
  unfolding wanted add_route
  add_route-wanted prefix entry out h = ground arith

  add_routes-retain :
      (prefix : Text) (out : Router) (xs : List (MountEntry axum))
      → add_routes axum out (retain (λ entry. not (wanted axum prefix entry)) xs)
        ≡ add_routes axum out xs
  unfolding add_routes
  add_routes-retain prefix out [] = refl
  add_routes-retain prefix out (x ∷ xs) = elim (Bool-cases (wanted axum prefix x)) [
    | inl taken ↦ rw taken (
        add_routes-retain prefix out xs
        ∙ ap (λ o. add_routes axum o xs) (sym (add_route-wanted prefix x out taken)))
    | inr stays ↦ rw stays (add_routes-retain prefix (add_route axum out x) xs)
  ]

  -- Manual mounts are never composed: neither registering one nor taking some out changes the
  -- app's router.
  compose-manual :
      (prefix : Text) (router : Router) (r : RouterRegistry axum)
      → (compose axum (mount_manual axum prefix router r) ≡ compose axum r)
        × (compose axum (take_manual axum prefix r).1 ≡ compose axum r)
  unfolding compose mount_manual take_manual
  compose-manual prefix router r = (
    ap (λ o. add_layers axum (add_fallback axum r.fallback o) r.layer_fns)
        (add_routes-append axum.new r.routes _),
    ap (λ o. add_layers axum (add_fallback axum r.fallback o) r.layer_fns)
        (add_routes-retain prefix axum.new r.routes),
  )

  -- The layer registered last is the outermost.
  compose-layer :
      (func : Router → Router) (r : RouterRegistry axum)
      → compose axum (layer axum func r) ≡ func (compose axum r)
  unfolding compose layer
  compose-layer func r = add_layers-append _ r.layer_fns (func ∷ [])

  -- A mount reaches the router behind the mounts before it and in front of the fallback and the
  -- layers: at the root it is merged, elsewhere nested under its prefix.
  compose-mount :
      (prefix : Text) (router : Router) (r : RouterRegistry axum)
      → compose axum (mount axum prefix router r)
        ≡ add_layers axum
            (add_fallback axum r.fallback (
              if is_empty prefix || prefix == codes "/"
              then axum.merge (add_routes axum axum.new r.routes) router
              else axum.nest (add_routes axum axum.new r.routes) prefix router))
            r.layer_fns
  unfolding compose mount
  compose-mount prefix router r =
      ap (λ o. add_layers axum (add_fallback axum r.fallback o) r.layer_fns)
        (add_routes-append axum.new r.routes _)

  -- An app has one fallback: the first is kept and a second is refused, whatever was registered in
  -- between.
  set_fallback_once :
      (first second : Router) (r : RouterRegistry axum)
      → has_fallback axum r ≡ false
      → (set_fallback axum first r ≡ (ok tt, record r { fallback = some first }))
        × (set_fallback axum second (record r { fallback = some first })
            ≡ (err (fallback_error axum), record r { fallback = some first }))
  unfolding set_fallback
  set_fallback_once first second r h = (rw h, refl)

  -- The fallback comes behind every mount and inside every layer, whenever it is registered.
  fallback_order :
      (fallback : Router) (prefix : Text) (router : Router) (func : Router → Router)
      (r : RouterRegistry axum)
      → ((set_fallback axum fallback (mount axum prefix router r)).1
          ≡ mount axum prefix router (set_fallback axum fallback r).1)
        × ((set_fallback axum fallback (layer axum func r)).1
            ≡ layer axum func (set_fallback axum fallback r).1)
        × (mount axum prefix router (layer axum func r)
            ≡ layer axum func (mount axum prefix router r))
  unfolding set_fallback mount layer
  fallback_order fallback prefix router func r = elim (Bool-cases (has_fallback axum r)) [
    | inl set ↦ (ground (arith, set), ground (arith, set), refl)
    | inr unset ↦ (ground (arith, unset), ground (arith, unset), refl)
  ]

  -- A mount reaches the router behind the mounts before it and in front of the fallback and the
  -- layers, merged at the root and nested under its prefix elsewhere; and the layer registered last
  -- is the outermost.
  pub compose-registered :
      (prefix : Text) (router : Router) (func : Router → Router) (r : RouterRegistry axum)
      → (compose axum (mount axum prefix router r)
          ≡ add_layers axum
              (add_fallback axum r.fallback (
                if is_empty prefix || prefix == codes "/"
                then axum.merge (add_routes axum axum.new r.routes) router
                else axum.nest (add_routes axum axum.new r.routes) prefix router))
              r.layer_fns)
        × (compose axum (layer axum func r) ≡ func (compose axum r))
  compose-registered prefix router func r = (compose-mount prefix router r, compose-layer func r)

  -- An app without a fallback takes the first that is registered and refuses a second, and whether a
  -- mount or a layer is registered before the fallback or after it makes no difference.
  set_fallback_lem :
      (first second : Router) (prefix : Text) (router : Router) (func : Router → Router)
      (r : RouterRegistry axum)
      → has_fallback axum r ≡ false
      → let s = (set_fallback axum first r).1 in
        (set_fallback axum first r ≡ (ok tt, record r { fallback = some first }))
        × (set_fallback axum second (record r { fallback = some first })
            ≡ (err (fallback_error axum), record r { fallback = some first }))
        × ((set_fallback axum first (mount axum prefix router r)).1 ≡ mount axum prefix router s)
        × ((set_fallback axum first (layer axum func r)).1 ≡ layer axum func s)
  set_fallback_lem first second prefix router func r free =
      let (kept, refused) = set_fallback_once first second r free in
      let (mounted, layered, _) = fallback_order first prefix router func r in
      (kept, refused, mounted, layered)
