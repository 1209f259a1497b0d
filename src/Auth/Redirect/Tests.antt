-- ===== src/Auth/Redirect/Tests.antt =====
-- Runs of crates/muxa-auth/src/redirect.rs, its own unit tests among them.
use muxa.Prelude.{◌≡◌, ◌⊎◌, refl, none, some, [], ◌∷◌, ◌++◌, List}
use muxa.Prelude.Text.{Text, codes, str_ops}
use muxa.Auth.Redirect.{on_site, safe_next, with_query}
use muxa.Auth.Redirect.Safety.{IsOnSite, IsOnSite-of_test, safe_next_exact}

-- `finish` for one pair with nothing to escape
abbrev plain : List (Text × Text) → Text
plain [] = []
plain ((k, v) ∷ pairs) = k ++ b'=' ∷ v

safe_next_tests :
    (safe_next (some (codes "/games?page=2")) (codes "/") ≡ codes "/games?page=2")
    × (safe_next (some (codes "https://evil.example")) (codes "/home") ≡ codes "/home")
    × (safe_next (some (codes "//evil.example")) (codes "/home") ≡ codes "/home")
    × (safe_next (some (codes "/\\evil.example")) (codes "/home") ≡ codes "/home")
    × (safe_next (some (codes "/x?u=https://evil")) (codes "/home") ≡ codes "/home")
    × (safe_next (some (codes "/a\nb")) (codes "/home") ≡ codes "/home")
    × (safe_next (some []) (codes "/home") ≡ codes "/home")
    × (safe_next none (codes "/home") ≡ codes "/home")
unfolding safe_next str_ops
safe_next_tests = (refl, refl, refl, refl, refl, refl, refl, refl)

abbrev verified : List (Text × Text)
verified = (codes "ogs", codes "verified") ∷ []

with_query_tests :
    (with_query plain (codes "/settings") verified ≡ codes "/settings?ogs=verified")
    × (with_query plain (codes "/?next=/a") verified ≡ codes "/?next=/a&ogs=verified")
    × (with_query plain (codes "/p#top") verified ≡ codes "/p?ogs=verified#top")
    × (with_query plain (codes "/p") [] ≡ codes "/p")
unfolding with_query str_ops
with_query_tests = (refl, refl, refl, refl)

root-IsOnSite : IsOnSite (codes "/")
unfolding on_site str_ops
root-IsOnSite = IsOnSite-of_test (codes "/") refl

safe_next_exact_example :
    (IsOnSite (codes "/games?page=2")
      × (safe_next (some (codes "/games?page=2")) (codes "/") ≡ codes "/games?page=2"))
    ⊎ ((¬ IsOnSite (codes "/games?page=2"))
        × (safe_next (some (codes "/games?page=2")) (codes "/") ≡ codes "/"))
safe_next_exact_example = safe_next_exact (codes "/games?page=2") (codes "/")
