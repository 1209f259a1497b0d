-- ===== src/Auth/Pending/Eviction.antt =====
-- The eviction loop of `remember` in crates/muxa-auth/src/routes.rs: it ends, and drops the oldest.
use muxa.Prelude.{
  ℕ, zero, suc, ◌≤◌, ◌<◌, ◌≡◌, ◌≢◌, refl, none, some, [], ◌∷◌, ltb, leb, length, arith, Bool-cases,
  inl, inr, Option-cases, ◌⊎◌, leb_iff,
}
use muxa.Prelude.Text.{Text}
use muxa.Prelude.Text.Laws.{==_iff}
use muxa.Prelude.Assoc.{IsMap, lookup, remove, lookup-remove, IsMap-remove, length-remove-lt}
use muxa.Auth.Pending.{PendingLogin, PendingMap, max_pending, oldest_from, oldest, evict}

-- `k` is in the map, and nothing in the map is older than its attempt.
pub record IsOldest (k : Text) (m : PendingMap) : Type 0 where
  pub attempt : PendingLogin
  pub listed : lookup k m ≡ some attempt
  pub least :
      (j : Text) (b : PendingLogin) → lookup j m ≡ some b → attempt.created_at ≤ b.created_at

-- The same for the search that starts with `a` at `k` and goes through `m`.
record IsOldestFrom (k : Text) (a : PendingLogin) (m : PendingMap) (k' : Text) : Type 0 where
  attempt : PendingLogin
  listed : ((k' ≡ k) × (attempt ≡ a)) ⊎ (lookup k' m ≡ some attempt)
  least_start : attempt.created_at ≤ a.created_at
  least : (j : Text) (b : PendingLogin) → lookup j m ≡ some b → attempt.created_at ≤ b.created_at

module _ {k j : Text} {a b : PendingLogin} {m : PendingMap} (new : lookup j m ≡ none) where
  step_older :
      {k' : Text}
      → b.created_at ≤ a.created_at
      → IsOldestFrom j b m k'
      → IsOldestFrom k a ((j, b) ∷ m) k'
  unfolding lookup
  step_older {k'} le h = record {
    attempt = h.attempt;
    listed = inr (ground (arith, h.listed, new, ==_iff j k'));
    least_start = omega (arith, h.least_start);
    least = λ i c e. ground (arith, h.least i c, h.least_start);
  }

  step_younger :
      {k' : Text}
      → a.created_at ≤ b.created_at
      → IsOldestFrom k a m k'
      → IsOldestFrom k a ((j, b) ∷ m) k'
  unfolding lookup
  step_younger {k'} le h = record {
    attempt = h.attempt;
    listed = ground (arith, h.listed, new, ==_iff j k');
    least_start = h.least_start;
    least = λ i c e. ground (arith, h.least i c, h.least_start);
  }

oldest_from_lem :
    (k : Text) (a : PendingLogin) (m : PendingMap)
    → IsMap m
    → IsOldestFrom k a m (oldest_from k a m)
unfolding oldest_from
oldest_from_lem k a [] h = record {
  attempt = a;
  listed = inl (refl, refl);
  least_start = omega arith;
  least = unfold lookup in λ j b e. cc;
}
oldest_from_lem k a ((j, b) ∷ m) (new, h) = elim (Bool-cases (ltb b.created_at a.created_at)) [
  | inl older ↦ rw older (step_older new (ground arith) (oldest_from_lem j b m h))
  | inr younger ↦ rw younger (step_younger new (ground arith) (oldest_from_lem k a m h))
]

oldest-IsOldest : (m : PendingMap) (k : Text) → IsMap m → oldest m ≡ some k → IsOldest k m
unfolding oldest lookup
oldest-IsOldest [] k h e = cc
oldest-IsOldest ((j, a) ∷ m) k (new, h) e =
    let found : IsOldestFrom j a m (oldest_from j a m) = oldest_from_lem j a m h in
    record {
      attempt = found.attempt;
      listed = ground (arith, found.listed, new, ==_iff j k);
      least = λ i b p. ground (arith, found.least i b, found.least_start);
    }

oldest-ne-none : (m : PendingMap) → max_pending ≤ length m → oldest m ≢ none
unfolding oldest
oldest-ne-none [] h = absurd (omega arith)
oldest-ne-none ((k, a) ∷ m) h = cc

module _ (f : ℕ) (m : PendingMap) (full : max_pending ≤ length m) where
  pub evict-step : (k : Text) → oldest m ≡ some k → evict (suc f) m ≡ evict f (remove k m)
  unfolding evict
  evict-step k e = rw ((leb_iff 4 (length m)).1 full) (rw (e, evict))

pub evict-eq_self : (f : ℕ) (m : PendingMap) → length m < max_pending → evict f m ≡ m
unfolding evict
evict-eq_self zero m h = refl
evict-eq_self (suc f) m h = ground arith

-- The loop as an induction: what holds of a map below the bound, and of a full map whenever it
-- holds of the map without its oldest entry, holds of what the loop leaves.
module _ {ℓ} (P : PendingMap → PendingMap → Type ℓ) (done : (m : PendingMap) → P m m)
    (drop : (m m' : PendingMap) (k : Text) → IsOldest k m → P (remove k m) m' → P m m') where
  evict_induction : (f : ℕ) (m : PendingMap) → IsMap m → P m (evict f m)
  evict_induction zero m h = unfold evict in done m
  evict_induction (suc f) m h = elim (Bool-cases (leb max_pending (length m))) [
    | inl full ↦ elim (Option-cases (oldest m)) [
      | inl missing ↦ absurd (oldest-ne-none m ((leb_iff 4 (length m)).0 full) missing)
      | inr (k, e) ↦ rw (evict-step f m ((leb_iff 4 (length m)).0 full) k e) (
          drop m (evict f (remove k m)) k (oldest-IsOldest m k h e)
            (evict_induction f (remove k m) (IsMap-remove k m h)))
    ]
    | inr room ↦ rw (evict-eq_self (suc f) m (ground arith)) (done m)
  ]

pub evict-IsMap : (f : ℕ) (m : PendingMap) → IsMap m → IsMap (evict f m)
evict-IsMap f m h =
    evict_induction (λ m m'. IsMap m → IsMap m') (λ m h. h)
      (λ m m' k o ih h. ih (IsMap-remove k m h)) f m h h

pub lookup_of_evict :
    (f : ℕ) (m : PendingMap) (j : Text) (b : PendingLogin)
    → IsMap m
    → lookup j (evict f m) ≡ some b
    → lookup j m ≡ some b
lookup_of_evict f m j b h e =
    evict_induction (λ m m'. lookup j m' ≡ some b → lookup j m ≡ some b) (λ m e. e)
      (λ m m' k o ih e. ground (arith, ih e, lookup-remove j k m)) f m h e

-- What was dropped is no newer than anything that stayed.
pub evict-drops_oldest :
    (f : ℕ) (m : PendingMap) (i j : Text) (a b : PendingLogin)
    → IsMap m
    → lookup i m ≡ some a
    → lookup i (evict f m) ≡ none
    → lookup j (evict f m) ≡ some b
    → a.created_at ≤ b.created_at
evict-drops_oldest f m i j a b h p q r =
    (evict_induction
        (λ m m'.
          (lookup j m' ≡ some b → lookup j m ≡ some b)
          × (lookup i m ≡ some a
              → lookup i m' ≡ none
              → lookup j m' ≡ some b
              → a.created_at ≤ b.created_at))
        (λ m. (λ r. r, λ p q r. cc))
        (λ m m' k o ih. (
          λ r. ground (arith, ih.0 r, lookup-remove j k m),
          λ p q r. ground (
            arith,
            lookup-remove i k m,
            ==_iff k i,
            o.listed,
            o.least j b,
            ih.0 r,
            ih.1,
            lookup-remove j k m,
          ),
        ))
        f m h).1
      p q r

-- With one unit of fuel for each entry the loop ends by its test.
pub length-evict-lt :
    (f : ℕ) (m : PendingMap) → IsMap m → length m ≤ f → length (evict f m) < max_pending
length-evict-lt zero m h le = unfold evict in omega arith
length-evict-lt (suc f) m h le = elim (Bool-cases (leb max_pending (length m))) [
  | inl full ↦ elim (Option-cases (oldest m)) [
    | inl missing ↦ absurd (oldest-ne-none m ((leb_iff 4 (length m)).0 full) missing)
    | inr (k, e) ↦
        let o : IsOldest k m = oldest-IsOldest m k h e in
        rw (evict-step f m ((leb_iff 4 (length m)).0 full) k e) (
          length-evict-lt f (remove k m) (IsMap-remove k m h)
            (omega (arith, length-remove-lt k m o.attempt o.listed)))
  ]
  | inr room ↦ rw (evict-eq_self (suc f) m (ground arith)) (ground arith)
]
