-- ===== src/Auth/Redirect/Safety.antt =====
-- crates/muxa-auth/src/redirect.rs, `safe_next`: no open redirect.
use muxa.Prelude.{
  ℕ, ◌≤◌, ◌≡◌, ◌≢◌, refl, Bool, true, false, ◌&&◌, not, Option, none, some, [], ◌∷◌, All,
  All-false_of_any, any-eq-false, All-map_of, eqb, Bool-cases, arith, inl, inr, ◌⊎◌,
}
use muxa.Prelude.Text.{Text, codes, starts_with, contains, contains_char, is_control, len}
use muxa.Prelude.Text.Laws.{contains_iff, Occurs}
use muxa.Auth.Redirect.{on_site, safe_next}

-- A browser that is sent to such a path stays on this site: the path has one leading slash, and
-- nothing that a browser reads as another host or drops.
pub record IsOnSite (path : Text) : Type 0 where
  pub rest : Text
  pub rooted : path ≡ b'/' ∷ rest
  pub one_slash : (host : Text) → rest ≢ b'/' ∷ host
  pub no_backslash : All (λ c. c ≢ b'\\') path
  pub no_scheme : ¬ Occurs (codes "://") path
  pub no_control : All (λ c. is_control c ≡ false) path
  pub short : len path ≤ 2048

-- The two tests on the first characters.
abbrev one_leading_slash : Text → Bool
one_leading_slash path = starts_with path (codes "/") && not (starts_with path (codes "//"))

leading_of :
    (path : Text)
    → one_leading_slash path ≡ true
    → (rest : Text) × (path ≡ b'/' ∷ rest) × ((host : Text) → rest ≢ b'/' ∷ host)
unfolding starts_with
leading_of [] h = ground arith
leading_of (c ∷ []) h = ([], ground arith, λ host. cc)
leading_of (c ∷ d ∷ rest) h = (d ∷ rest, ground arith, λ host e. ground arith)

of_leading :
    (path rest : Text)
    → path ≡ b'/' ∷ rest
    → ((host : Text) → rest ≢ b'/' ∷ host)
    → one_leading_slash path ≡ true
unfolding starts_with
of_leading path [] e h = rw e refl
of_leading path (d ∷ rest) e h = rw e (ground (arith, h rest))

no_char_of : (c : ℕ) (s : Text) → contains_char s c ≡ false → All (λ d. d ≢ c) s
unfolding contains_char
no_char_of c s h =
    All-map_of (λ d. eqb c d ≡ false) (λ d. d ≢ c) (λ d e. ground arith) s
      (All-false_of_any (eqb c) s h)

of_no_char : (c : ℕ) (s : Text) → All (λ d. d ≢ c) s → contains_char s c ≡ false
unfolding contains_char
of_no_char c s h =
    any-eq-false (eqb c) s
      (All-map_of (λ d. d ≢ c) (λ d. eqb c d ≡ false) (λ d e. ground arith) s h)

pub IsOnSite-of_test : (path : Text) → on_site path ≡ true → IsOnSite path
unfolding on_site
IsOnSite-of_test path h =
    let (rest, rooted, one_slash) = leading_of path (ground arith) in
    record {
      rest = rest;
      rooted = rooted;
      one_slash = one_slash;
      no_backslash = no_char_of b'\\' path (ground arith);
      no_scheme = λ o. ground (arith, (contains_iff path (codes "://")).1 o);
      no_control = All-false_of_any is_control path (ground arith);
      short = ground arith;
    }

pub test_of_IsOnSite : (path : Text) → IsOnSite path → on_site path ≡ true
unfolding on_site
test_of_IsOnSite path h = elim (Bool-cases (contains path (codes "://"))) [
  | inl bad ↦ absurd (h.no_scheme ((contains_iff path (codes "://")).0 bad))
  | inr good ↦ ground (
    arith,
    good,
    of_leading path h.rest h.rooted h.one_slash,
    of_no_char b'\\' path h.no_backslash,
    any-eq-false is_control path h.no_control,
    h.short,
  )
]

-- The path that a sign-in goes back to is on this site, whatever the request asked for, provided
-- that the configured fallback is.
pub safe_next-IsOnSite :
    (next : Option Text) (fallback : Text) → IsOnSite fallback → IsOnSite (safe_next next fallback)
unfolding safe_next
safe_next-IsOnSite none fallback h = h
safe_next-IsOnSite (some path) fallback h = elim (Bool-cases (on_site path)) [
  | inl good ↦ rw good (IsOnSite-of_test path good)
  | inr bad ↦ rw bad h
]

-- A requested path is kept if it is on this site, and replaced by the fallback if it is not.
pub safe_next_exact :
    (path fallback : Text)
    → (IsOnSite path × (safe_next (some path) fallback ≡ path))
      ⊎ ((¬ IsOnSite path) × (safe_next (some path) fallback ≡ fallback))
unfolding safe_next
safe_next_exact path fallback = elim (Bool-cases (on_site path)) [
  | inl good ↦ inl (IsOnSite-of_test path good, rw good refl)
  | inr bad ↦ inr (λ h. ground (arith, bad, test_of_IsOnSite path h), rw bad refl)
]
