-- ===== src/Pgmq/Order.antt =====
-- The order of strings behind crates/muxa-pgmq/src/lib.rs, and what sorting does.
use muxa.Prelude.{
  ◌≡◌, refl, ap, ◌∙◌, inl, inr, Bool, true, false, ◌||◌, List, [], ◌∷◌, any, All, All-map_of, arith,
  Bool-cases,
}
use muxa.Prelude.Text.{Text, ◌==◌}
use muxa.Pgmq.{lt_text, insert_sorted, sort_unstable}

pub lt_text_asymm : (s t : Text) → lt_text s t ≡ true → lt_text t s ≡ false
unfolding lt_text
lt_text_asymm s [] h = cc
lt_text_asymm [] (d ∷ t) h = refl
lt_text_asymm (c ∷ s) (d ∷ t) h = ground (arith, lt_text_asymm s t)

-- Not before, then not before, is not before.
not_lt_trans : (s t u : Text) → lt_text t s ≡ false → lt_text u t ≡ false → lt_text u s ≡ false
unfolding lt_text
not_lt_trans [] t u h k = refl
not_lt_trans (c ∷ s) [] u h k = cc
not_lt_trans (c ∷ s) (d ∷ t) [] h k = cc
not_lt_trans (c ∷ s) (d ∷ t) (e ∷ u) h k = ground (arith, not_lt_trans s t u)

pub lt_of_not_lt : (s t : Text) → lt_text t s ≡ false → (s == t) ≡ false → lt_text s t ≡ true
unfolding lt_text ◌==◌
lt_of_not_lt [] [] h k = cc
lt_of_not_lt [] (d ∷ t) h k = refl
lt_of_not_lt (c ∷ s) [] h k = cc
lt_of_not_lt (c ∷ s) (d ∷ t) h k = ground (arith, lt_of_not_lt s t)

pub lt_text_trans : (s t u : Text) → lt_text s t ≡ true → lt_text u t ≡ false → lt_text s u ≡ true
unfolding lt_text
lt_text_trans s [] u h k = cc
lt_text_trans [] (d ∷ t) [] h k = cc
lt_text_trans [] (d ∷ t) (e ∷ u) h k = refl
lt_text_trans (c ∷ s) (d ∷ t) [] h k = cc
lt_text_trans (c ∷ s) (d ∷ t) (e ∷ u) h k = ground (arith, lt_text_trans s t u)

-- No later one is before an earlier one.
abbrev pub Ordered : List Text → Type 0
Ordered [] = Unit
Ordered (x ∷ xs) = All (λ y. lt_text y x ≡ false) xs × Ordered xs

All-insert_sorted :
    (P : Text → Type 0) (x : Text) (ys : List Text) → P x → All P ys → All P (insert_sorted x ys)
unfolding insert_sorted
All-insert_sorted P x [] h hs = (h, tt)
All-insert_sorted P x (y ∷ ys) h (hy, hys) = elim (Bool-cases (lt_text y x)) [
  | inl before ↦ rw before (hy, All-insert_sorted P x ys h hys)
  | inr not_before ↦ rw not_before (h, (hy, hys))
]

insert_sorted-Ordered : (x : Text) (ys : List Text) → Ordered ys → Ordered (insert_sorted x ys)
unfolding insert_sorted
insert_sorted-Ordered x [] h = (tt, tt)
insert_sorted-Ordered x (y ∷ ys) (h, hs) = elim (Bool-cases (lt_text y x)) [
  | inl before ↦ rw before (
    All-insert_sorted (λ z. lt_text z y ≡ false) x ys (lt_text_asymm y x before) h,
    insert_sorted-Ordered x ys hs,
  )
  | inr not_before ↦ rw not_before (
    (
      not_before,
      All-map_of (λ z. lt_text z y ≡ false) (λ z. lt_text z x ≡ false)
          (λ z k. not_lt_trans x y z not_before k) ys h,
    ),
    (h, hs),
  )
]

pub sort_unstable-Ordered : (xs : List Text) → Ordered (sort_unstable xs)
unfolding sort_unstable
sort_unstable-Ordered [] = tt
sort_unstable-Ordered (x ∷ xs) =
    insert_sorted-Ordered x (sort_unstable xs) (sort_unstable-Ordered xs)

any-insert_sorted :
    (p : Text → Bool) (x : Text) (ys : List Text) → any p (insert_sorted x ys) ≡ (p x || any p ys)
unfolding insert_sorted
any-insert_sorted p x [] = refl
any-insert_sorted p x (y ∷ ys) = ground (arith, any-insert_sorted p x ys)

pub any-sort_unstable : (p : Text → Bool) (xs : List Text) → any p (sort_unstable xs) ≡ any p xs
unfolding sort_unstable
any-sort_unstable p [] = refl
any-sort_unstable p (x ∷ xs) =
    any-insert_sorted p x (sort_unstable xs) ∙ ap (λ b. p x || b) (any-sort_unstable p xs)
