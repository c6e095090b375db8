-- ===== src/CronLock.antt =====
-- packages/davepi-plugin-cron/lib/lock.js: a lease on a row of a collection with a unique index on the
-- name, for a job that several processes share. Times are milliseconds; `now` is what the
-- clock shows at the call, and a holder's id is a fresh text.
pub mod World
pub mod Exclusion
use davepi.Base.{
  Bool, Option, String, false, if◌then◌else◌, ltb, none, some, true, ℕ, ◌*◌, ◌+◌, ◌==◌,
}
use davepi.Collection.{Collection}

pub record LockRow : Type 0 where
  pub holder_id : String
  pub expires_at : ℕ

-- What `buildLease` closes over.
pub record Lease : Type 0 where
  pub holder_id : String
  pub lease_seconds : ℕ
  pub expires_at : ℕ
  pub released : Bool
  pub aborted : Bool

abbrev pub is_stale : ℕ → LockRow → Bool
is_stale now row = ltb row.expires_at now

abbrev pub is_held_by : String → LockRow → Bool
is_held_by holder_id row = row.holder_id == holder_id

abbrev pub build_lease : String → ℕ → ℕ → Lease
build_lease holder_id lease_seconds expires_at = record {
  holder_id = holder_id;
  lease_seconds = lease_seconds;
  expires_at = expires_at;
  released = false;
  aborted = false;
}

module _ (db : Collection LockRow) (name : String) where
  open db use {State, upsert_one, find_and_update, delete_one}

  unfoldable pub acquired : String → ℕ → ℕ → State → Option State → Option Lease × State
  acquired holder_id lease_seconds expires_at s none = (none, s)
  acquired holder_id lease_seconds expires_at s (some t) =
      (some (build_lease holder_id lease_seconds expires_at), t)

  -- `acquire`, on a connection that is ready and for a name and a positive number of seconds: the upsert
  -- takes a stale row over or inserts a row, and a duplicate key means that another process owns the lock.
  unfoldable pub acquire : String → ℕ → ℕ → State → Option Lease × State
  unfolding acquired
  acquire holder_id lease_seconds now s =
      let expires_at = now + lease_seconds * 1000 in
      let row : LockRow = record { holder_id = holder_id; expires_at = expires_at } in
      acquired holder_id lease_seconds expires_at s
        (upsert_one name (is_stale now) (λ q. row) row s)

  unfoldable pub beaten : Lease → ℕ → Bool × State → Bool × (Lease × State)
  beaten lease expires_at (true, t) = (true, (record lease { expires_at = expires_at }, t))
  beaten lease expires_at (false, t) = (false, (record lease { aborted = true }, t))

  -- `heartbeat`
  unfoldable pub heartbeat : Lease → ℕ → State → Bool × (Lease × State)
  unfolding beaten
  heartbeat lease now s =
      let expires_at = now + lease.lease_seconds * 1000 in
      let answer = beaten lease expires_at (
        find_and_update name (is_held_by lease.holder_id)
          (λ q. record q { expires_at = expires_at }) s) in
      if lease.released then (false, (lease, s)) else answer

  -- `release`
  unfoldable pub release : Lease → State → Lease × State
  release lease s =
      if lease.released
      then (lease, s)
      else (record lease { released = true }, delete_one name (is_held_by lease.holder_id) s)
