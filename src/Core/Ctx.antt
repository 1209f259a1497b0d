-- ===== src/Core/Ctx.antt =====
-- crates/muxa-core/src/ctx.rs: what plugins register while the app is built. axum's `Router` is a
-- parameter, with the operations that `compose` calls; so are the serve function and what spawning a
-- task gives.
pub mod Compose
pub mod Manual
mod Tests
use muxa.Prelude.{
  ℕ, Bool, true, false, not, ◌&&◌, ◌||◌, Option, none, some, List, [], ◌∷◌, ◌++◌, map, retain,
  length, if◌then◌else◌,
}
use muxa.Prelude.Text.{Text, codes, ◌==◌, is_empty, is_some}
use muxa.Prelude.Effects.{Result, ok, err}

pub data Mount : Type 0 where
  auto manual : Mount

pub record Axum : Type 1 where
  pub Router : Type 0
  pub new : Router
  pub merge : Router → Router → Router
  pub nest : Router → Text → Router → Router
  pub fallback_service : Router → Router → Router

abbrev pub is_auto : Mount → Bool
is_auto auto = true
is_auto manual = false

module _ (axum : Axum) where
  open axum use {Router}

  pub record MountEntry : Type 0 where
    pub prefix : Text
    pub router : Router
    pub mount : Mount

  pub record RouterRegistry : Type 0 where
    pub routes : List MountEntry
    pub fallback : Option Router
    pub layer_fns : List (Router → Router)

abbrev pub empty_registry : (axum : Axum) → RouterRegistry axum
empty_registry axum = record { routes = []; fallback = none; layer_fns = [] }

module _ (axum : Axum) where
  open axum use {Router}

  unfoldable pub mount : Text → Router → RouterRegistry axum → RouterRegistry axum
  mount prefix router r = record r {
    routes = r.routes ++ record { prefix = prefix; router = router; mount = auto } ∷ [];
  }

  unfoldable pub mount_manual : Text → Router → RouterRegistry axum → RouterRegistry axum
  mount_manual prefix router r = record r {
    routes = r.routes ++ record { prefix = prefix; router = router; mount = manual } ∷ [];
  }

  unfoldable pub has_fallback : RouterRegistry axum → Bool
  has_fallback r = is_some r.fallback

  abbrev pub fallback_error : Text
  fallback_error = codes "another plugin already registered a fallback router"

  unfoldable pub set_fallback :
      Router → RouterRegistry axum → Result Text Unit × RouterRegistry axum
  unfolding has_fallback
  set_fallback router r =
      if has_fallback r
      then (err fallback_error, r)
      else (ok tt, record r { fallback = some router })

  unfoldable pub layer : (Router → Router) → RouterRegistry axum → RouterRegistry axum
  layer func r = record r { layer_fns = r.layer_fns ++ func ∷ [] }

  unfoldable pub mounts : RouterRegistry axum → List (Text × Mount)
  mounts r = map (λ (entry : MountEntry axum). (entry.prefix, entry.mount)) r.routes

  unfoldable pub wanted : Text → MountEntry axum → Bool
  wanted prefix entry = not (is_auto entry.mount) && entry.prefix == prefix

  -- `extract_if(.., wanted)`: what is taken out, and what stays
  unfoldable pub take_manual : Text → RouterRegistry axum → List Router × RouterRegistry axum
  unfolding wanted
  take_manual prefix r = (
    map (λ (entry : MountEntry axum). entry.router) (retain (wanted prefix) r.routes),
    record r { routes = retain (λ entry. not (wanted prefix entry)) r.routes },
  )

  unfoldable pub add_route : Router → MountEntry axum → Router
  add_route out entry =
      if is_auto entry.mount
      then (if is_empty entry.prefix || entry.prefix == codes "/"
          then axum.merge out entry.router
          else axum.nest out entry.prefix entry.router)
      else out

  unfoldable pub add_routes : Router → List (MountEntry axum) → Router
  unfolding add_route
  add_routes out [] = out
  add_routes out (entry ∷ routes) = add_routes (add_route out entry) routes

  unfoldable pub add_fallback : Option Router → Router → Router
  add_fallback none out = out
  add_fallback (some fallback) out = axum.fallback_service out fallback

  unfoldable pub add_layers : Router → List (Router → Router) → Router
  add_layers out [] = out
  add_layers out (func ∷ layer_fns) = add_layers (func out) layer_fns

  unfoldable pub compose : RouterRegistry axum → Router
  unfolding add_routes add_fallback add_layers
  compose r = add_layers (add_fallback r.fallback (add_routes axum.new r.routes)) r.layer_fns
