-- ===== src/Core/Ctx/Manual.antt =====
-- `RouterRegistry::take_manual` of crates/muxa-core/src/ctx.rs.
use muxa.Prelude.{
  ◌≡◌, refl, ap, ◌∙◌, Bool, true, not, ◌&&◌, List, [], ◌∷◌, ◌++◌, map, retain, length, suc, ◌+◌,
  arith,
}
use mathlib.Core.List.{map-append}
use muxa.Prelude.Text.{Text, ◌==◌}
use muxa.Prelude.Text.Laws.{==_refl}
use muxa.Core.Ctx.{
  Mount, manual, is_auto, Axum, MountEntry, RouterRegistry, mount_manual, mounts, wanted,
  take_manual,
}

module _ {ℓ} {A : Type ℓ} (p : A → Bool) where
  retain-retain-not : (xs : List A) → retain p (retain (λ x. not (p x)) xs) ≡ []
  retain-retain-not [] = refl
  retain-retain-not (x ∷ xs) = ground (arith, retain-retain-not xs)

  retain-append : (xs ys : List A) → retain p (xs ++ ys) ≡ retain p xs ++ retain p ys
  retain-append [] ys = refl
  retain-append (x ∷ xs) ys = ground (arith, retain-append xs ys)

  length-retain :
      (xs : List A) → length (retain p xs) + length (retain (λ x. not (p x)) xs) ≡ length xs
  length-retain [] = omega arith
  length-retain (x ∷ xs) = ground (arith, length-retain xs)

length-map {ℓ κ} :
    {A : Type ℓ} {B : Type κ} (f : A → B) (xs : List A) → length (map f xs) ≡ length xs
length-map f [] = refl
length-map f (x ∷ xs) = ap suc (length-map f xs)

map-retain {ℓ κ} :
    {A : Type ℓ} {B : Type κ} (f : A → B) (p : A → Bool) (q : B → Bool)
    → ((x : A) → q (f x) ≡ p x)
    → (xs : List A) → map f (retain p xs) ≡ retain q (map f xs)
map-retain f p q h [] = refl
map-retain f p q h (x ∷ xs) = ground (arith, h x, map-retain f p q h xs)

module _ (axum : Axum) where
  open axum use {Router}

  -- A mount that `take_manual` leaves: an automatic one, or one under another prefix.
  abbrev pub stays : Text → Text × Mount → Bool
  stays prefix (p, mode) = not (not (is_auto mode) && p == prefix)

  -- A router that was mounted manually is handed out under its prefix, behind those mounted before.
  take_manual-mount_manual :
      (prefix : Text) (router : Router) (r : RouterRegistry axum)
      → (take_manual axum prefix (mount_manual axum prefix router r)).0
        ≡ (take_manual axum prefix r).0 ++ router ∷ []
  unfolding take_manual mount_manual
  take_manual-mount_manual prefix router r =
      let e : MountEntry axum = record { prefix = prefix; router = router; mount = manual } in
      let kept : wanted axum prefix e ≡ true = unfold wanted in ==_refl prefix in
      ap (map (λ (e : MountEntry axum). e.router))
        (retain-append (wanted axum prefix) r.routes (e ∷ []))
      ∙ map-append (λ (e : MountEntry axum). e.router) (retain (wanted axum prefix) r.routes) _
      ∙ rw kept

  -- Taking the manual mounts under a prefix takes each of them once, loses and adds none, and leaves
  -- the other mounts in their order; a second time there is nothing to take; and a router that is
  -- mounted manually is handed out under its prefix, behind those mounted before.
  take_manual_lem :
      (prefix : Text) (router : Router) (r : RouterRegistry axum)
      → (mounts axum (take_manual axum prefix r).1 ≡ retain (stays prefix) (mounts axum r))
        × (length (take_manual axum prefix r).0 + length (mounts axum (take_manual axum prefix r).1)
            ≡ length (mounts axum r))
        × ((take_manual axum prefix (take_manual axum prefix r).1).0 ≡ [])
        × ((take_manual axum prefix (mount_manual axum prefix router r)).0
            ≡ (take_manual axum prefix r).0 ++ router ∷ [])
  unfolding take_manual mounts
  take_manual_lem prefix router r = (
    map-retain (λ (e : MountEntry axum). (e.prefix, e.mount)) (λ e. not (wanted axum prefix e))
        (stays prefix) (λ e. refl) r.routes,
    omega (
      arith,
      length-map {B = Router} (λ (e : MountEntry axum). e.router)
          (retain (wanted axum prefix) r.routes),
      length-map {B = Text × Mount} (λ (e : MountEntry axum). (e.prefix, e.mount))
          (retain (λ e. not (wanted axum prefix e)) r.routes),
      length-map {B = Text × Mount} (λ (e : MountEntry axum). (e.prefix, e.mount)) r.routes,
      length-retain (wanted axum prefix) r.routes,
    ),
    ap (map (λ (e : MountEntry axum). e.router)) (retain-retain-not (wanted axum prefix) r.routes),
    take_manual-mount_manual prefix router r,
  )
