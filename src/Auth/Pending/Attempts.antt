-- ===== src/Auth/Pending/Attempts.antt =====
-- What `remember` and `take` of crates/muxa-auth/src/routes.rs do to the map of attempts.
use muxa.Prelude.{
  ℕ, ◌+◌, ◌≤◌, ◌<◌, ◌≡◌, ◌≢◌, refl, true, none, some, [], ◌∷◌, length, if◌then◌else◌, arith,
  Option-cases, inl, inr, sym, ap, ◌∙◌,
}
use muxa.Prelude.Text.{Text, ◌==◌}
use muxa.Prelude.Text.Laws.{==_iff}
use muxa.Prelude.Assoc.{
  IsMap, lookup, remove, insert, keys, retain_values, keep_if, lookup-remove, lookup-insert,
  lookup-insert_self, lookup-retain, IsMap-insert, IsMap-retain, length-remove-le, IsMap-remove,
}
use muxa.Auth.Pending.{
  PendingLogin, PendingMap, max_pending, fresh, evict, remembered, find_key, taken,
}
use muxa.Auth.Pending.Eviction.{
  evict-IsMap, evict-eq_self, lookup_of_evict, evict-drops_oldest, length-evict-lt,
}

length-insert-le :
    (k : Text) (v : PendingLogin) (m : PendingMap) → length (insert k v m) ≤ length m + 1
unfolding insert
length-insert-le k v m = omega (arith, length-remove-le k m)

module _ (now : ℕ) (p : PendingLogin) (map : PendingMap) (unique : IsMap map) where
  abbrev live : PendingMap
  live = retain_values (fresh now) map

  live-IsMap : IsMap live
  live-IsMap = IsMap-retain (fresh now) map unique

  -- In a map with each token once, a new attempt is stored under its state token, beside at most
  -- three others, each token once.
  pub remembered-IsMap :
      IsMap (remembered now p map)
      × (length (remembered now p map) ≤ max_pending)
      × (lookup p.state (remembered now p map) ≡ some p)
  unfolding remembered
  remembered-IsMap = (
    IsMap-insert p.state p _ (evict-IsMap (length live) live live-IsMap),
    omega (
      arith,
      length-insert-le p.state p (evict (length live) live),
      length-evict-lt (length live) live live-IsMap (omega arith),
    ),
    lookup-insert_self p.state p _,
  )

  lookup-remembered :
      (j : Text)
      → j ≢ p.state
      → lookup j (remembered now p map) ≡ lookup j (evict (length live) live)
  unfolding remembered
  lookup-remembered j h =
      ground (arith, lookup-insert j p.state p (evict (length live) live), ==_iff p.state j)

  -- In a map with each token once, an attempt under another token than the new one's that is still
  -- there was there before, unchanged, and is not too old.
  pub remembered-keeps :
      (j : Text) (b : PendingLogin)
      → j ≢ p.state
      → lookup j (remembered now p map) ≡ some b
      → (lookup j map ≡ some b) × (fresh now b ≡ true)
  remembered-keeps j b h e = ground (
    arith,
    lookup-remembered j h,
    lookup_of_evict (length live) live j b live-IsMap,
    lookup-retain j (fresh now) map unique,
  )

  -- In a map with each token once, a fresh attempt under another token than the new one's is
  -- dropped only in favour of attempts that are no older.
  pub remembered-drops_oldest :
      (i j : Text) (a b : PendingLogin)
      → i ≢ p.state
      → j ≢ p.state
      → lookup i map ≡ some a
      → fresh now a ≡ true
      → lookup i (remembered now p map) ≡ none
      → lookup j (remembered now p map) ≡ some b
      → a.created_at ≤ b.created_at
  remembered-drops_oldest i j a b hi hj was young gone stays =
      evict-drops_oldest (length live) live i j a b live-IsMap
        (lookup-retain i (fresh now) map unique ∙ rw was (rw young))
        (sym (lookup-remembered i hi) ∙ gone) (sym (lookup-remembered j hj) ∙ stays)

  -- In a map with each token once and fewer than four fresh attempts, those that are fresh all
  -- stay, under other tokens than the new one's, and the others go.
  remembered-keeps_all :
      (j : Text)
      → length (retain_values (fresh now) map) < max_pending
      → j ≢ p.state
      → lookup j (remembered now p map) ≡ keep_if (fresh now) (lookup j map)
  remembered-keeps_all j room h =
      lookup-remembered j h
      ∙ ap (lookup j) (evict-eq_self (length live) live room)
      ∙ lookup-retain j (fresh now) map unique

find_key-keys :
    (state : Text) (map : PendingMap)
    → find_key state (keys map) ≡ elim (lookup state map) [ none ↦ none | some _ ↦ some state ]
unfolding find_key lookup
find_key-keys state [] = refl
find_key-keys state ((k, a) ∷ map) = ground (arith, find_key-keys state map, ==_iff k state)

taken_missing :
    (state : Text) (map : PendingMap) → lookup state map ≡ none → taken state map ≡ (none, map)
unfolding taken
taken_missing state map e =
    let k : find_key state (keys map) ≡ none = find_key-keys state map ∙ rw e in rw (k, taken)

taken_found :
    (state : Text) (map : PendingMap) (a : PendingLogin)
    → lookup state map ≡ some a
    → taken state map ≡ (some a, remove state map)
unfolding taken
taken_found state map a e =
    let k : find_key state (keys map) ≡ some state = find_key-keys state map ∙ rw e in
    rw (k, taken) (rw e)

-- `take` finds the attempt of its state token, and removes that one alone.
pub taken_lem :
    (state : Text) (map : PendingMap)
    → ((taken state map).0 ≡ lookup state map)
      × ((j : Text) → lookup j (taken state map).1 ≡ (if state == j then none else lookup j map))
taken_lem state map = elim (Option-cases (lookup state map)) [
  | inl missing ↦
      rw (taken_missing state map missing) (sym missing, λ j. ground (arith, ==_iff state j))
  | inr (a, found) ↦ rw (taken_found state map a found) (sym found, λ j. lookup-remove j state map)
]

pub taken-IsMap :
    (state : Text) (map : PendingMap)
    → IsMap map
    → IsMap (taken state map).1 × (length (taken state map).1 ≤ length map)
taken-IsMap state map h = elim (Option-cases (lookup state map)) [
  | inl missing ↦ rw (taken_missing state map missing) (h, omega arith)
  | inr (a, found) ↦
      rw (taken_found state map a found) (IsMap-remove state map h, length-remove-le state map)
]
