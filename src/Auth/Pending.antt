-- ===== src/Auth/Pending.antt =====
-- The sign-ins in progress that a session keeps: `PendingLogin` of
-- crates/muxa-auth/src/provider.rs, and `remember` and `take` of crates/muxa-auth/src/routes.rs.
-- tower-sessions' `Session` is a parameter: its operations on the one key that these use.
-- A reading of the clock is an argument.
pub mod Eviction
pub mod Attempts
pub mod Sessions
pub mod SingleUse
pub mod Reach
mod Tests
use muxa.Prelude.{
  ℕ, zero, suc, ◌-◌, Bool, true, false, Option, none, some, List, [], ◌∷◌, ltb, leb, length,
  if◌then◌else◌,
}
use muxa.Prelude.Text.{Text, ◌==◌}
use muxa.Prelude.Effects.{Result, ok, err}
use muxa.Prelude.Assoc.{Assoc, lookup, remove, insert, retain_values, keep_if, keys}

-- A sign-in in progress, kept in the session between `start` and `callback`.
pub record PendingLogin : Type 0 where
  pub provider : Text
  pub state : Text
  pub pkce_verifier : Option Text
  pub nonce : Option Text
  pub next : Text
  pub link : Bool
  pub created_at : ℕ

abbrev pub pending_ttl_secs : ℕ
pending_ttl_secs = 600

abbrev pub max_pending : ℕ
max_pending = 4

abbrev pub PendingMap : Type 0
PendingMap = Assoc PendingLogin

-- `now.saturating_sub(attempt.created_at) < PENDING_TTL_SECS`
abbrev pub fresh : ℕ → PendingLogin → Bool
fresh now attempt = ltb (now - attempt.created_at) pending_ttl_secs

-- `min_by_key`: the first of the least, in the order of iteration
unfoldable pub oldest_from : Text → PendingLogin → PendingMap → Text
oldest_from k a [] = k
oldest_from k a ((j, b) ∷ m) =
    let older = ltb b.created_at a.created_at in
    oldest_from (if older then j else k) (if older then b else a) m

unfoldable pub oldest : PendingMap → Option Text
unfolding oldest_from
oldest [] = none
oldest ((k, a) ∷ m) = some (oldest_from k a m)

-- The `while` loop; each round removes an entry, so the number of entries is fuel enough.
unfoldable pub evict : ℕ → PendingMap → PendingMap
unfolding oldest remove
evict zero m = m
evict (suc fuel) m =
    let rest : PendingMap = elim (oldest m) [ none ↦ m | some k ↦ evict fuel (remove k m) ] in
    if leb max_pending (length m) then rest else m

-- The map that `remember` writes back.
unfoldable pub remembered : ℕ → PendingLogin → PendingMap → PendingMap
unfolding evict retain_values insert
remembered now pending map =
    let live = retain_values (fresh now) map in
    insert pending.state pending (evict (length live) live)

-- `keys().find(…)`, the comparison of `ct_eq` being that of the bytes
unfoldable pub find_key : Text → List Text → Option Text
find_key state [] = none
find_key state (key ∷ ks) = if key == state then some key else find_key state ks

-- The attempt that `take` removes, fresh or not, and the map without it.
unfoldable pub taken : Text → PendingMap → Option PendingLogin × PendingMap
unfolding find_key lookup remove
taken state map = elim (find_key state (keys map)) [
  | none ↦ (none, map)
  | some key ↦ (lookup key map, remove key map)
]

-- What `Session::get`, `insert` and `remove` do at `PENDING_KEY`. A write leaves some state behind
-- whether it succeeds or not.
pub record SessionOps : Type 1 where
  pub Session : Type 0
  pub Error : Type 0
  pub get : Session → Result Error (Option PendingMap)
  pub insert : PendingMap → Session → Result Error Unit × Session
  pub remove : Session → Result Error Unit × Session

module _ (ops : SessionOps) where
  open ops use {Session, Error}

  unfoldable pub remember : ℕ → PendingLogin → Session → Result Error Unit × Session
  unfolding remembered
  remember now pending session = elim (ops.get session) [
    | err e ↦ (err e, session)
    | ok none ↦ ops.insert (remembered now pending []) session
    | ok (some map) ↦ ops.insert (remembered now pending map) session
  ]

  unfoldable pub write_back : PendingMap → Session → Result Error Unit × Session
  write_back [] session = ops.remove session
  write_back (entry ∷ map) session = ops.insert (entry ∷ map) session

  abbrev pub and_return : {A : Type 0} → A → Result Error Unit × Session → Result Error A × Session
  and_return a (ok _, session) = (ok a, session)
  and_return a (err e, session) = (err e, session)

  unfoldable pub take : ℕ → Text → Session → Result Error (Option PendingLogin) × Session
  unfolding taken write_back
  take now state session = elim (ops.get session) [
    | err e ↦ (err e, session)
    | ok none ↦ (ok none, session)
    | ok (some map) ↦
        let (found, rest) = taken state map in
        and_return (keep_if (fresh now) found) (write_back rest session)
  ]
