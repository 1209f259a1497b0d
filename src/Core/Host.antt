-- ===== src/Core/Host.antt =====
-- crates/muxa-core/src/host.rs: the default size of a database pool. The number of CPUs is an
-- argument.
mod Tests
use muxa.Prelude.{ℕ, ◌+◌, ◌*◌, ◌^◌, ◌≤◌, ◌<◌, ◌≡◌, ◌-◌, min, max, ltb, if◌then◌else◌, arith}

abbrev pub u32_max : ℕ
u32_max = 4294967295

-- `u32::try_from(n).unwrap_or(u32::MAX)`
abbrev pub to_u32 : ℕ → ℕ
to_u32 n = if ltb u32_max n then u32_max else n

abbrev pub saturating_mul : ℕ → ℕ → ℕ
saturating_mul a b = if ltb u32_max (a * b) then u32_max else a * b

abbrev pub clamp : ℕ → ℕ → ℕ → ℕ
clamp lo hi n = if ltb n lo then lo else if ltb hi n then hi else n

unfoldable pub db_pool_size_for : ℕ → ℕ
db_pool_size_for cpus = clamp 4 32 (saturating_mul (to_u32 cpus) 4)

-- The size is four for each CPU between 4 and 32, on any number of CPUs; nothing wraps around.
db_pool_size_for_lem :
    (cpus : ℕ)
    → (db_pool_size_for cpus ≡ max 4 (min 32 (4 * cpus)))
      × (4 ≤ db_pool_size_for cpus)
      × (db_pool_size_for cpus ≤ 32)
unfolding db_pool_size_for
db_pool_size_for_lem cpus = (ground arith, ground arith, ground arith)
