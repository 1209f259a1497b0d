-- ===== src/Auth/Password/Tests.antt =====
-- Hash functions that write the password into the hash; after the unit tests of
-- crates/muxa-auth/src/password.rs.
use muxa.Prelude.{◌≡◌, refl, ◌↔◌, ◌++◌, true, none, some, [], ◌∷◌, if◌then◌else◌}
use muxa.Prelude.Text.{Text, codes, str_ops, ◌==◌}
use muxa.Prelude.Effects.{ok, err}
use muxa.Auth.Password.{valid, needs_rehash, invalid, is_valid, Hashes, argon2, verify_blocking}
use muxa.Auth.Password.Verify.{Stored, Checked, Current, Matches, verify_blocking_lem}

abbrev plain : Hashes
plain = record {
  Error = Unit;
  verify_password = λ password hash. if hash == codes "$argon2$" ++ password then ok tt else err tt;
  is_hash_obsolete = λ hash. ok (hash == codes "$argon2$old");
  bcrypt_verify = λ password hash. ok (hash == codes "$2b$" ++ password);
  dummy_hash = codes "$argon2$dummy";
}

passwords : Unit {0}
unfolding verify_blocking str_ops
passwords = tt

verify_tests :
    ((verify_blocking plain (codes "hunter2") (some (codes "$argon2$hunter2"))).0 ≡ valid)
    × ((verify_blocking plain (codes "old") (some (codes "$argon2$old"))).0 ≡ needs_rehash)
    × ((verify_blocking plain (codes "hunter2") (some (codes "$2b$hunter2"))).0 ≡ needs_rehash)
    × ((verify_blocking plain (codes "wrong") (some (codes "$2b$hunter2"))).0 ≡ invalid)
    × ((verify_blocking plain (codes "x") (some [])).0 ≡ invalid)
    × (verify_blocking plain (codes "x") none ≡ (invalid, argon2 (codes "$argon2$dummy") ∷ []))
unfolding passwords
verify_tests = (refl, refl, refl, refl, refl, refl)

verify_blocking_lem_example :
    let (verified, checks) =
      verify_blocking plain (codes "hunter2") (some (codes "$argon2$hunter2")) in
    ((is_valid verified ≡ true) ↔ (
      (hash : Text) × Stored (some (codes "$argon2$hunter2")) hash
      × Matches plain (codes "hunter2") hash))
    × ((verified ≡ valid) ↔ (
        (hash : Text) × Stored (some (codes "$argon2$hunter2")) hash
        × Current plain (codes "hunter2") hash))
    × Checked plain (some (codes "$argon2$hunter2")) checks
verify_blocking_lem_example =
    verify_blocking_lem plain (codes "hunter2") (some (codes "$argon2$hunter2"))
