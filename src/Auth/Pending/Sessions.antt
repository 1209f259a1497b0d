-- ===== src/Auth/Pending/Sessions.antt =====
-- `remember` and `take` of crates/muxa-auth/src/routes.rs over a session: an attempt that was
-- remembered is found once, while it is fresh.
use muxa.Prelude.{ℕ, ◌≡◌, refl, Option, none, some, [], ◌∷◌, arith, inl, inr, ◌⊎◌, sym, ap}
use muxa.Prelude.Text.{Text}
use muxa.Prelude.Text.Laws.{==_refl}
use muxa.Prelude.Effects.{Result, ok, err}
use muxa.Prelude.Assoc.{keep_if, lookup}
use muxa.Auth.Pending.{
  PendingLogin, PendingMap, SessionOps, fresh, remembered, taken, remember, take, write_back,
  and_return,
}
use muxa.Auth.Pending.Attempts.{taken_lem}

-- What tower-sessions documents of `Session`: a value that was inserted is read back, a removed one
-- is gone, and an operation that fails (the record could not be loaded) has written nothing.
pub record IsSession (ops : SessionOps) : Type 0 where
  pub get-insert :
      (map : PendingMap) (s s' : ops.Session)
      → ops.insert map s ≡ (ok tt, s')
      → ops.get s' ≡ ok (some map)
  pub get-remove : (s s' : ops.Session) → ops.remove s ≡ (ok tt, s') → ops.get s' ≡ ok none
  pub get-insert_failed :
      (map : PendingMap) (s s' : ops.Session) (e : ops.Error)
      → ops.insert map s ≡ (err e, s')
      → ops.get s' ≡ ops.get s
  pub get-remove_failed :
      (s s' : ops.Session) (e : ops.Error) → ops.remove s ≡ (err e, s') → ops.get s' ≡ ops.get s

-- The attempts that a session holds; none where it cannot be read.
abbrev pub map_of : {E : Type 0} → Result E (Option PendingMap) → PendingMap
map_of (err e) = []
map_of (ok none) = []
map_of (ok (some map)) = map

abbrev pub attempts : (ops : SessionOps) → ops.Session → PendingMap
attempts ops s = map_of (ops.get s)

module _ (ops : SessionOps) (laws : IsSession ops) where
  open ops use {Session, Error}

  attempts-write_back :
      (map : PendingMap) (s s' : Session)
      → write_back ops map s ≡ (ok tt, s')
      → attempts ops s' ≡ map
  unfolding write_back
  attempts-write_back [] s s' e = ap map_of (laws.get-remove s s' e)
  attempts-write_back (entry ∷ map) s s' e = ap map_of (laws.get-insert (entry ∷ map) s s' e)

  and_return-eq_ok :
      {A : Type 0} (a b : A) (w : Result Error Unit × Session) (s' : Session)
      → and_return ops a w ≡ (ok b, s')
      → (a ≡ b) × (w ≡ (ok tt, s'))
  and_return-eq_ok a b (ok _, s) s' e = (cc, cc)
  and_return-eq_ok a b (err x, s) s' e = ground arith

  -- What `take` returned and left, where it did not fail.
  pub take-eq_ok :
      (now : ℕ) (state : Text) (s s' : Session) (r : Option PendingLogin)
      → take ops now state s ≡ (ok r, s')
      → (r ≡ keep_if (fresh now) (taken state (attempts ops s)).0)
        × (attempts ops s' ≡ (taken state (attempts ops s)).1)
  unfolding take
  take-eq_ok now state s s' r e = go (ops.get s) refl
    where
      go :
          (g : Result Error (Option PendingMap))
          → ops.get s ≡ g
          → (r ≡ keep_if (fresh now) (taken state (map_of (ops.get s))).0)
            × (attempts ops s' ≡ (taken state (map_of (ops.get s))).1)
      go (err x) p = ground (arith, p)
      go (ok none) p = ground (arith, p)
      go (ok (some map)) p =
          let (found, written) =
            and_return-eq_ok _ r (write_back ops (taken state map).1 s) s' ((rw (p, take) at e)) in
          rw p (sym found, attempts-write_back _ s s' written)

  pub remember-eq_ok :
      (now : ℕ) (p : PendingLogin) (s s' : Session)
      → remember ops now p s ≡ (ok tt, s')
      → attempts ops s' ≡ remembered now p (attempts ops s)
  unfolding remember
  remember-eq_ok now p s s' e = go (ops.get s) refl
    where
      go :
          (g : Result Error (Option PendingMap))
          → ops.get s ≡ g
          → attempts ops s' ≡ remembered now p (map_of (ops.get s))
      go (err x) q = ground (arith, q)
      go (ok none) q = rw q (ap map_of (laws.get-insert _ s s' (rw (q, remember) at e)))
      go (ok (some map)) q = rw q (ap map_of (laws.get-insert _ s s' (rw (q, remember) at e)))

  attempts-write_back_failed :
      (map : PendingMap) (s s' : Session) (x : Error)
      → write_back ops map s ≡ (err x, s')
      → attempts ops s' ≡ attempts ops s
  unfolding write_back
  attempts-write_back_failed [] s s' x e = ap map_of (laws.get-remove_failed s s' x e)
  attempts-write_back_failed (entry ∷ map) s s' x e =
      ap map_of (laws.get-insert_failed (entry ∷ map) s s' x e)

  and_return-eq_err :
      {A : Type 0} (a : A) (w : Result Error Unit × Session) (x : Error) (s' : Session)
      → and_return ops a w ≡ (err x, s')
      → w ≡ (err x, s')
  and_return-eq_err a (ok _, s) x s' e = ground arith
  and_return-eq_err a (err y, s) x s' e = cc

  -- A failed `take` or `remember` leaves the attempts as they were.
  pub attempts-take_failed :
      (now : ℕ) (state : Text) (s s' : Session) (x : Error)
      → take ops now state s ≡ (err x, s')
      → attempts ops s' ≡ attempts ops s
  unfolding take
  attempts-take_failed now state s s' x e = go (ops.get s) refl
    where
      go : (g : Result Error (Option PendingMap)) → ops.get s ≡ g → attempts ops s' ≡ attempts ops s
      go (err y) p = ground (arith, p)
      go (ok none) p = ground (arith, p)
      go (ok (some map)) p =
          attempts-write_back_failed (taken state map).1 s s' x
            (and_return-eq_err _ (write_back ops (taken state map).1 s) x s' (rw (p, take) at e))

  pub attempts-remember_failed :
      (now : ℕ) (p : PendingLogin) (s s' : Session) (x : Error)
      → remember ops now p s ≡ (err x, s')
      → attempts ops s' ≡ attempts ops s
  unfolding remember
  attempts-remember_failed now p s s' x e = go (ops.get s) refl
    where
      go : (g : Result Error (Option PendingMap)) → ops.get s ≡ g → attempts ops s' ≡ attempts ops s
      go (err y) q = ground (arith, q)
      go (ok none) q = ap map_of (laws.get-insert_failed _ s s' x (rw (q, remember) at e))
      go (ok (some map)) q = ap map_of (laws.get-insert_failed _ s s' x (rw (q, remember) at e))

  -- Whether it fails or not.
  pub attempts-remember :
      (now : ℕ) (p : PendingLogin) (s : Session)
      → let s' = (remember ops now p s).1 in
        (attempts ops s' ≡ remembered now p (attempts ops s)) ⊎ (attempts ops s' ≡ attempts ops s)
  attempts-remember now p s = go (remember ops now p s) refl
    where
      go :
          (w : Result Error Unit × Session)
          → remember ops now p s ≡ w
          → (attempts ops (remember ops now p s).1 ≡ remembered now p (attempts ops s))
            ⊎ (attempts ops (remember ops now p s).1 ≡ attempts ops s)
      go (ok _, s') e = inl (rw e (remember-eq_ok now p s s' e))
      go (err x, s') e = inr (rw e (attempts-remember_failed now p s s' x e))

  pub attempts-take :
      (now : ℕ) (state : Text) (s : Session)
      → let s' = (take ops now state s).1 in
        (attempts ops s' ≡ (taken state (attempts ops s)).1) ⊎ (attempts ops s' ≡ attempts ops s)
  attempts-take now state s = go (take ops now state s) refl
    where
      go :
          (w : Result Error (Option PendingLogin) × Session)
          → take ops now state s ≡ w
          → (attempts ops (take ops now state s).1 ≡ (taken state (attempts ops s)).1)
            ⊎ (attempts ops (take ops now state s).1 ≡ attempts ops s)
      go (ok r, s') e = inl (rw e ((take-eq_ok now state s s' r e).1))
      go (err x, s') e = inr (rw e (attempts-take_failed now state s s' x e))

  -- A token whose attempt was returned is spent.
  pub take-spent :
      (now : ℕ) (state : Text) (s s' : Session) (a : PendingLogin)
      → take ops now state s ≡ (ok (some a), s')
      → lookup state (attempts ops s') ≡ none
  take-spent now state s s' a e =
      let (_, left) = take-eq_ok now state s s' (some a) e in
      ground
        (arith, ap (lookup state) left, (taken_lem state (attempts ops s)).1 state, ==_refl state)
