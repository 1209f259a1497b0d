-- ===== src/Auth/Plugin/Mounted.antt =====
-- crates/muxa-auth/src/plugin.rs with crates/muxa-auth/src/routes.rs: the routes stand where the
-- redirect URLs point.
use muxa.Prelude.{ℕ, ◌≡◌, refl, ◌⊎◌, inl, inr, ◌&&◌, Bool, false, [], ◌∷◌, ◌++◌, eqb, Bool-cases}
use muxa.Prelude.Text.{Text, codes, is_empty, trim_start, trim_end}
use muxa.Auth.Routes.{get, post, router}
use muxa.Auth.Plugin.{mount_path}

trim_end_twice : (p : ℕ → Bool) (s : Text) → trim_end p (trim_end p s) ≡ trim_end p s
unfolding trim_end
trim_end_twice p [] = refl
trim_end_twice p (c ∷ s) = elim (Bool-cases (p c && is_empty (trim_end p s))) [
  | inl drops ↦ rw drops refl
  | inr keeps ↦ rw keeps (rw (trim_end_twice p s) (rw keeps refl))
]

trim_end_behind :
    (p : ℕ → Bool) (c : ℕ) (s : Text)
    → trim_end p s ≡ s
    → is_empty s ≡ false
    → trim_end p (c ∷ s) ≡ c ∷ s
unfolding trim_end
trim_end_behind p c s e h = elim (Bool-cases (p c)) [
  | inl t ↦ rw (e, h) (rw t refl)
  | inr f ↦ rw (e, h) (rw f refl)
]

trim_end-mount_path : (path : Text) → trim_end (eqb b'/') (mount_path path) ≡ mount_path path
unfolding mount_path trim_end
trim_end-mount_path path =
    elim (Bool-cases (is_empty (trim_end (eqb b'/') (trim_start (eqb b'/') path)))) [
      | inl root ↦ rw root refl
      | inr below ↦ rw below (
          trim_end_behind (eqb b'/') b'/' (trim_end (eqb b'/') (trim_start (eqb b'/') path))
            (trim_end_twice (eqb b'/') (trim_start (eqb b'/') path)) below)
    ]

-- A mount is nothing, for the root, or a slash before something.
abbrev pub IsMount : Text → Type 0
IsMount path = (path ≡ []) ⊎ ((rest : Text) × (path ≡ b'/' ∷ rest) × (is_empty rest ≡ false))

mount_path-IsMount : (path : Text) → IsMount (mount_path path)
unfolding mount_path
mount_path-IsMount path =
    elim (Bool-cases (is_empty (trim_end (eqb b'/') (trim_start (eqb b'/') path)))) [
      | inl root ↦ rw root (inl refl)
      | inr below ↦ rw below (inr (trim_end (eqb b'/') (trim_start (eqb b'/') path), refl, below))
    ]

-- However `mount` is written, the prefix of the sign-in routes is nothing or a slash before
-- something, and the three routes stand right behind it: the router takes nothing more off it, so
-- the callback route is where the redirect URLs, made from the same prefix, point.
router-mount_path :
    (path : Text)
    → IsMount (mount_path path)
      × (router (mount_path path)
          ≡ (get, mount_path path ++ codes "/{provider}/start")
            ∷ (get, mount_path path ++ codes "/{provider}/callback")
            ∷ (post, mount_path path ++ codes "/sign-out")
            ∷ [])
unfolding router
router-mount_path path = (mount_path-IsMount path, rw (trim_end-mount_path path) refl)
