-- ===== src/Pgmq/Merged.antt =====
-- crates/muxa-pgmq/src/lib.rs: each queue is named once, and none is forgotten.
use muxa.Prelude.{
  ◌≡◌, refl, ap, ◌∙◌, inl, inr, Bool, true, false, ◌||◌, List, [], ◌∷◌, ◌++◌, any, All, All-map_of,
  arith, Bool-cases,
}
use muxa.Prelude.Text.{Text, ◌==◌}
use muxa.Prelude.Text.Laws.{==_iff}
use muxa.Pgmq.{lt_text, sort_unstable, put_before, dedup, merge_queues}
use muxa.Pgmq.Order.{
  lt_of_not_lt, lt_text_asymm, lt_text_trans, Ordered, sort_unstable-Ordered, any-sort_unstable,
}

-- Each is before all later ones.
abbrev pub Increasing : List Text → Type 0
Increasing [] = Unit
Increasing (x ∷ xs) = All (λ y. lt_text x y ≡ true) xs × Increasing xs

any-put_before :
    (p : Text → Bool) (x : Text) (ys : List Text) → any p (put_before x ys) ≡ (p x || any p ys)
any-put_before p x [] = refl
any-put_before p x (y ∷ ys) = ground (arith, ==_iff x y)

any-dedup : (p : Text → Bool) (xs : List Text) → any p (dedup xs) ≡ any p xs
unfolding dedup
any-dedup p [] = refl
any-dedup p (x ∷ xs) = any-put_before p x (dedup xs) ∙ ap (λ b. p x || b) (any-dedup p xs)

All-dedup : (P : Text → Type 0) (xs : List Text) → All P xs → All P (dedup xs)
unfolding dedup
All-dedup P [] h = tt
All-dedup P (x ∷ xs) (h, hs) = All-put_before x (dedup xs) h (All-dedup P xs hs)
  where
    All-put_before : (x : Text) (ys : List Text) → P x → All P ys → All P (put_before x ys)
    All-put_before x [] h hs = (h, tt)
    All-put_before x (y ∷ ys) h hs = elim (Bool-cases (x == y)) [
      | inl same ↦ rw same hs
      | inr other ↦ rw other (h, hs)
    ]

put_before-Increasing :
    (x : Text) (ys : List Text)
    → All (λ y. lt_text y x ≡ false) ys
    → Increasing ys
    → Increasing (put_before x ys)
put_before-Increasing x [] h hs = (tt, tt)
put_before-Increasing x (y ∷ ys) (h, later) (hy, hys) = elim (Bool-cases (x == y)) [
  | inl same ↦ rw same (hy, hys)
  | inr other ↦
      let first = lt_of_not_lt x y h other in
      rw other (
        (
          first,
          All-map_of (λ z. lt_text y z ≡ true) (λ z. lt_text x z ≡ true)
              (λ z k. lt_text_trans x y z first (lt_text_asymm y z k)) ys hy,
        ),
        (hy, hys),
      )
]

dedup-Increasing : (xs : List Text) → Ordered xs → Increasing (dedup xs)
unfolding dedup
dedup-Increasing [] h = tt
dedup-Increasing (x ∷ xs) (h, hs) =
    put_before-Increasing x (dedup xs) (All-dedup (λ y. lt_text y x ≡ false) xs h)
      (dedup-Increasing xs hs)

-- The queues to ensure are in increasing order, so that none is named twice, and they are exactly
-- those declared on the plugin or in the configuration.
pub merge_queues-Increasing :
    (from_plugin from_config : List Text) (name : Text)
    → Increasing (merge_queues from_plugin from_config)
      × (any (λ q. q == name) (merge_queues from_plugin from_config)
          ≡ any (λ q. q == name) (from_plugin ++ from_config))
unfolding merge_queues
merge_queues-Increasing from_plugin from_config name = (
  dedup-Increasing (sort_unstable (from_plugin ++ from_config))
      (sort_unstable-Ordered (from_plugin ++ from_config)),
  any-dedup (λ q. q == name) (sort_unstable (from_plugin ++ from_config))
      ∙ any-sort_unstable (λ q. q == name) (from_plugin ++ from_config),
)
