-- ===== src/Auth/Password/Verify.antt =====
-- `verify_blocking` of crates/muxa-auth/src/password.rs: when a password matches.
use muxa.Prelude.{
  ◌≡◌, ◌≢◌, refl, sym, ap, List, ◌↔◌, ◌⊎◌, inl, inr, Bool, true, false, Option, none, some, [], ◌∷◌,
  arith, Bool-cases, Option-cases, if◌then◌else◌,
}
use mathlib.Core.Path.{subst}
use muxa.Prelude.Text.{Text, codes, starts_with}
use muxa.Prelude.Text.Laws.{IsPrefix, starts_with_iff}
use muxa.Prelude.Effects.{Result, ok, err}
use muxa.Auth.Password.{
  Verified, valid, needs_rehash, invalid, is_valid, Hashes, Check, argon2, bcrypt, non_empty,
  is_bcrypt, obsolete, of_bcrypt, of_argon2, verify_blocking,
}

-- A hash as the three versions of bcrypt write it.
abbrev pub IsBcrypt : Text → Type 0
IsBcrypt hash =
    IsPrefix (codes "$2a$") hash ⊎ IsPrefix (codes "$2b$") hash ⊎ IsPrefix (codes "$2y$") hash

IsBcrypt-of_test : (hash : Text) → is_bcrypt hash ≡ true → IsBcrypt hash
unfolding is_bcrypt
IsBcrypt-of_test hash e = elim (Bool-cases (starts_with hash (codes "$2a$"))) [
  | inl a ↦ inl ((starts_with_iff hash (codes "$2a$")).0 a)
  | inr not_a ↦ elim (Bool-cases (starts_with hash (codes "$2b$"))) [
    | inl b ↦ inr (inl ((starts_with_iff hash (codes "$2b$")).0 b))
    | inr not_b ↦ inr (inr ((starts_with_iff hash (codes "$2y$")).0 (ground (arith, not_a, not_b))))
  ]
]

test-of_IsBcrypt : (hash : Text) → IsBcrypt hash → is_bcrypt hash ≡ true
unfolding is_bcrypt
test-of_IsBcrypt hash (inl a) = ground (arith, (starts_with_iff hash (codes "$2a$")).1 a)
test-of_IsBcrypt hash (inr (inl b)) = ground (arith, (starts_with_iff hash (codes "$2b$")).1 b)
test-of_IsBcrypt hash (inr (inr y)) = ground (arith, (starts_with_iff hash (codes "$2y$")).1 y)

-- What holds of the one value that an option has.
at_value :
    (P : Text → Type 0) (o : Option Text) (a : Text)
    → o ≡ some a
    → ((x : Text) × (o ≡ some x) × P x)
    → P a
at_value P o a e (x, e', p) = subst P (ground (arith, e, e')) p

-- A hash is stored, and it is not the empty text.
abbrev pub Stored : Option Text → Text → Type 0
Stored stored hash = (stored ≡ some hash) × (hash ≢ [])

Stored-iff :
    (stored : Option Text) (hash : Text) → (non_empty stored ≡ some hash) ↔ Stored stored hash
Stored-iff none hash = (λ e. ground (arith, e), λ (e, _). ground (arith, e))
Stored-iff (some []) hash = (λ e. ground (arith, e), λ (e, full). absurd (full (sym (some_inj e))))
  where
    some_inj : {a b : Text} → ◌≡◌ {A = Option Text} (some a) (some b) → a ≡ b
    some_inj h = cc
Stored-iff (some (c ∷ s)) hash = (λ e. (e, λ z. ground (arith, e, z)), λ (e, _). e)

module _ (h : Hashes) where
  -- A hash that the password was made into, by one function or the other.
  abbrev pub Matches : Text → Text → Type 0
  Matches password hash =
      (IsBcrypt hash × (h.bcrypt_verify password hash ≡ ok true))
      ⊎ ((¬ IsBcrypt hash) × (h.verify_password password hash ≡ ok tt))

  verify_none :
      (password : Text) (stored : Option Text)
      → non_empty stored ≡ none
      → verify_blocking h password stored ≡ (invalid, argon2 h.dummy_hash ∷ [])
  unfolding verify_blocking
  verify_none password stored e = rw (e, verify_blocking) refl

  verify_bcrypt :
      (password : Text) (stored : Option Text) (hash : Text)
      → non_empty stored ≡ some hash
      → is_bcrypt hash ≡ true
      → verify_blocking h password stored
        ≡ (of_bcrypt h (h.bcrypt_verify password hash), bcrypt hash ∷ [])
  unfolding verify_blocking
  verify_bcrypt password stored hash e b = rw (e, b, verify_blocking) refl

  verify_argon2 :
      (password : Text) (stored : Option Text) (hash : Text)
      → non_empty stored ≡ some hash
      → is_bcrypt hash ≡ false
      → verify_blocking h password stored
        ≡ (of_argon2 h hash (h.verify_password password hash), argon2 hash ∷ [])
  unfolding verify_blocking
  verify_argon2 password stored hash e b = rw (e, b, verify_blocking) refl

  abbrev Accepts : Text → Option Text → Type 0
  Accepts password stored = (hash : Text) × (non_empty stored ≡ some hash) × Matches password hash

  -- A hash that the password matches and that need not be replaced.
  abbrev pub Current : Text → Text → Type 0
  Current password hash =
      Matches password hash × (¬ IsBcrypt hash) × (h.is_hash_obsolete hash ≡ ok false)

  bcrypt_ok : (r : Result h.Error Bool) → is_valid (of_bcrypt h r) ≡ true → r ≡ ok true
  bcrypt_ok (ok true) v = refl
  bcrypt_ok (ok false) v = ground arith
  bcrypt_ok (err x) v = ground arith

  bcrypt_ne_valid : (r : Result h.Error Bool) → of_bcrypt h r ≢ valid
  bcrypt_ne_valid (ok true) v = ground arith
  bcrypt_ne_valid (ok false) v = ground arith
  bcrypt_ne_valid (err x) v = ground arith

  argon2_ok :
      (hash : Text) (r : Result h.Error Unit) → is_valid (of_argon2 h hash r) ≡ true → r ≡ ok tt
  argon2_ok hash (ok x) v = refl
  argon2_ok hash (err x) v = ground arith

  argon2_accepts :
      (hash : Text) (r : Result h.Error Unit) → r ≡ ok tt → is_valid (of_argon2 h hash r) ≡ true
  argon2_accepts hash r e = rw e (either (obsolete h (h.is_hash_obsolete hash)))
    where
      either : (b : Bool) → is_valid (if b then needs_rehash else valid) ≡ true
      either true = refl
      either false = refl

  argon2_valid :
      (hash : Text) (r : Result h.Error Unit)
      → of_argon2 h hash r ≡ valid
      → (r ≡ ok tt) × (h.is_hash_obsolete hash ≡ ok false)
  argon2_valid hash (ok x) v = (refl, known (h.is_hash_obsolete hash) v)
    where
      known :
          (r : Result h.Error Bool)
          → (if obsolete h r then needs_rehash else valid) ≡ valid
          → r ≡ ok false
      known (ok true) e = ground arith
      known (ok false) e = refl
      known (err y) e = ground arith
  argon2_valid hash (err x) v = ground arith

  bcrypt_iff :
      (password hash : Text)
      → is_bcrypt hash ≡ true
      → let v = of_bcrypt h (h.bcrypt_verify password hash) in
        ((is_valid v ≡ true) ↔ Matches password hash) × ((v ≡ valid) ↔ Current password hash)
  bcrypt_iff password hash old =
      let is_old = IsBcrypt-of_test hash old in
      (
        (
          λ v. inl (is_old, bcrypt_ok _ v),
          λ m. elim m [ inl (_, e) ↦ rw e refl | inr (n, _) ↦ absurd (n is_old) ],
        ),
        (λ v. absurd (bcrypt_ne_valid _ v), λ (_, n, _). absurd (n is_old)),
      )

  argon2_iff :
      (password hash : Text)
      → is_bcrypt hash ≡ false
      → let v = of_argon2 h hash (h.verify_password password hash) in
        ((is_valid v ≡ true) ↔ Matches password hash) × ((v ≡ valid) ↔ Current password hash)
  argon2_iff password hash new =
      let is_new : ¬ IsBcrypt hash = λ b. ground (arith, new, test-of_IsBcrypt hash b) in
      (
        (
          λ v. inr (is_new, argon2_ok hash _ v),
          λ m. elim m [ inl (b, _) ↦ absurd (is_new b) | inr (_, e) ↦ argon2_accepts hash _ e ],
        ),
        (
          λ v. (inr (is_new, (argon2_valid hash _ v).0), is_new, (argon2_valid hash _ v).1),
          λ (m, _, fresh). elim m [
            | inl (b, _) ↦ absurd (is_new b)
            | inr (_, e) ↦ rw (e, fresh) refl
          ],
        ),
      )

  -- From the hash that is stored to any account.
  carried :
      (password : Text) (stored : Option Text) (hash : Text)
      → non_empty stored ≡ some hash
      → (v : Verified)
      → ((is_valid v ≡ true) ↔ Matches password hash) × ((v ≡ valid) ↔ Current password hash)
      → ((is_valid v ≡ true) ↔ Accepts password stored)
        × ((v ≡ valid) ↔ ((x : Text) × (non_empty stored ≡ some x) × Current password x))
  carried password stored hash there v (accepts, current) = (
    (λ e. (hash, there, accepts.0 e), λ a. accepts.1 (at_value (Matches password) _ hash there a)),
    (λ e. (hash, there, current.0 e), λ a. current.1 (at_value (Current password) _ hash there a)),
  )

  -- The check that is made of what is stored: by the function that made the hash, and of the dummy
  -- hash, by argon2, where there is none.
  abbrev pub Checked : Option Text → List Check → Type 0
  Checked none checks = checks ≡ argon2 h.dummy_hash ∷ []
  Checked (some hash) checks =
      ((hash ≡ []) × (checks ≡ argon2 h.dummy_hash ∷ []))
      ⊎ ((hash ≢ []) × IsBcrypt hash × (checks ≡ bcrypt hash ∷ []))
      ⊎ ((hash ≢ []) × (¬ IsBcrypt hash) × (checks ≡ argon2 hash ∷ []))

  non_empty_cases :
      (hash : Text)
      → ((hash ≡ []) × (non_empty (some hash) ≡ none))
        ⊎ ((hash ≢ []) × (non_empty (some hash) ≡ some hash))
  non_empty_cases [] = inl (refl, refl)
  non_empty_cases (c ∷ s) = inr (λ e. cc, refl)

  verify-Checked :
      (password : Text) (stored : Option Text)
      → Checked stored (verify_blocking h password stored).1
  verify-Checked password none = ap (λ r. r.1) (verify_none password none refl)
  verify-Checked password (some hash) = elim (non_empty_cases hash) [
    | inl (empty, e) ↦ inl (empty, ap (λ r. r.1) (verify_none password (some hash) e))
    | inr (full, e) ↦ elim (Bool-cases (is_bcrypt hash)) [
      | inl old ↦ inr (
          inl (
            full,
            IsBcrypt-of_test hash old,
            ap (λ r. r.1) (verify_bcrypt password (some hash) hash e old),
          ))
      | inr new ↦ inr (
          inr (
            full,
            λ b. ground (arith, new, test-of_IsBcrypt hash b),
            ap (λ r. r.1) (verify_argon2 password (some hash) hash e new),
          ))
    ]
  ]

  verify_outcome :
      (password : Text) (stored : Option Text)
      → let verified = (verify_blocking h password stored).0 in
        ((is_valid verified ≡ true)
          ↔ ((hash : Text) × (non_empty stored ≡ some hash) × Matches password hash))
        × ((verified ≡ valid)
            ↔ ((hash : Text) × (non_empty stored ≡ some hash) × Current password hash))
  verify_outcome password stored = elim (Option-cases (non_empty stored)) [
    | inl absent ↦ rw (verify_none password stored absent) (
      (λ v. ground arith, λ (x, e, _). ground (arith, absent, e)),
      (λ v. ground arith, λ (x, e, _). ground (arith, absent, e)),
    )
    | inr (hash, there) ↦ elim (Bool-cases (is_bcrypt hash)) [
      | inl old ↦
          rw (verify_bcrypt password stored hash there old)
            (carried password stored hash there _ (bcrypt_iff password hash old))
      | inr new ↦
          rw (verify_argon2 password stored hash there new)
            (carried password stored hash there _ (argon2_iff password hash new))
    ]
  ]

  -- A password is accepted exactly if a hash is stored that is not empty and that it matches, by
  -- bcrypt for a bcrypt hash and by argon2 for any other; it is accepted without a new hash exactly
  -- if the hash is no bcrypt hash and known not to be obsolete; and one check is made whatever is
  -- stored: of the stored hash by the function that made it, and, where none is stored or an empty
  -- one, of the dummy hash by argon2.
  pub verify_blocking_lem :
      (password : Text) (stored : Option Text)
      → let (verified, checks) = verify_blocking h password stored in
        ((is_valid verified ≡ true) ↔ ((hash : Text) × Stored stored hash × Matches password hash))
        × ((verified ≡ valid) ↔ ((hash : Text) × Stored stored hash × Current password hash))
        × Checked stored checks
  verify_blocking_lem password stored =
      let (accepts, current) = verify_outcome password stored in
      (
        (
          λ e. let (x, there, m) = accepts.0 e in (x, (Stored-iff stored x).0 there, m),
          λ (x, there, m). accepts.1 (x, (Stored-iff stored x).1 there, m),
        ),
        (
          λ e. let (x, there, m) = current.0 e in (x, (Stored-iff stored x).0 there, m),
          λ (x, there, m). current.1 (x, (Stored-iff stored x).1 there, m),
        ),
        verify-Checked password stored,
      )
