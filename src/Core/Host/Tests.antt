-- ===== src/Core/Host/Tests.antt =====
-- The unit tests of crates/muxa-core/src/host.rs.
use muxa.Prelude.{◌≡◌, refl}
use muxa.Core.Host.{db_pool_size_for}

db_pool_size_tests :
    (db_pool_size_for 0 ≡ 4)
    × (db_pool_size_for 2 ≡ 8)
    × (db_pool_size_for 8 ≡ 32)
    × (db_pool_size_for 18446744073709551615 ≡ 32)
unfolding db_pool_size_for
db_pool_size_tests = (refl, refl, refl, refl)
