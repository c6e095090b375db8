-- ===== src/MigrationLock.antt =====
-- utils/migrations/lock.js: the one-document lock of the migrations. Times are milliseconds; `now` is what
-- the clock shows at the call. What other runners do between two operations of a call is a function.
pub mod Ownership
pub mod Heartbeat
use davepi.Base.{
  Bool, List, Option, String, [], eqb, false, if◌then◌else◌, ltb, none, not, some, true, ℕ, ◌+◌,
  ◌==◌, ◌||◌, ◌∷◌,
}
use davepi.Collection.{Collection}

pub record LockRow : Type 0 where
  pub owner : String
  pub locked_at : ℕ

abbrev pub lock_name : String
lock_name = "__lock"

abbrev pub any_row : LockRow → Bool
any_row row = true

abbrev pub is_owned_by : String → LockRow → Bool
is_owned_by owner row = row.owner == owner

abbrev pub is_locked_at : ℕ → LockRow → Bool
is_locked_at time row = eqb row.locked_at time

-- `existing.lockedAt < staleBefore`
abbrev pub is_stale : ℕ → ℕ → LockRow → Bool
is_stale stale_ms now row = ltb (row.locked_at + stale_ms) now

-- How the function that runs under the lock ends, and how the run as a whole does.
pub data Result (A : Type 0) : Type 0 where
  returned : A → Result A
  threw : String → Result A

pub data Ended (A : Type 0) : Type 0 where
  could_not_acquire was_reaped : Ended A
  failed : String → Ended A
  finished : A → Ended A

unfoldable pub settle : {A : Type 0} → Bool → Result A → Ended A
settle stolen (threw message) = failed message
settle true (returned a) = was_reaped
settle false (returned a) = finished a

module _ (db : Collection LockRow) where
  open db use {State, insert, find_one, find_and_update, delete_one}

  abbrev pub reaped : String → Bool × State → Option String × State
  reaped owner (found, t) = (if found then some owner else none, t)

  unfoldable pub reap :
      ℕ → String → ℕ → (State → State) → State → Option LockRow → Option String × State
  reap stale_ms owner now meanwhile s none = (none, s)
  reap stale_ms owner now meanwhile s (some existing) =
      let taken = reaped owner (
        find_and_update lock_name (is_locked_at existing.locked_at)
          (λ row. record { owner = owner; locked_at = now }) (meanwhile s)) in
      if is_stale stale_ms now existing then taken else (none, s)

  unfoldable pub after_insert :
      ℕ
      → String
      → ℕ
      → (State → State)
      → (State → State)
      → State
      → Option State
      → Option String × State
  after_insert stale_ms owner now before meanwhile s none =
      reap stale_ms owner now meanwhile (before s) (find_one lock_name any_row (before s))
  after_insert stale_ms owner now before meanwhile s (some t) = (some owner, t)

  -- `acquireLock`; other runners act before its read of the row, and between that and its reaping.
  unfoldable pub acquire_lock :
      ℕ → String → ℕ → (State → State) → (State → State) → State → Option String × State
  unfolding reap after_insert
  acquire_lock stale_ms owner now before meanwhile s =
      after_insert stale_ms owner now before meanwhile s
        (insert lock_name (record { owner = owner; locked_at = now }) s)

  -- `releaseLock`
  unfoldable pub release_lock : String → State → State
  release_lock owner s = delete_one lock_name (is_owned_by owner) s

  -- `renewLock`
  unfoldable pub renew_lock : String → ℕ → State → Bool × State
  renew_lock owner now s =
      find_and_update lock_name (is_owned_by owner) (λ row. record row { locked_at = now }) s

  -- The heartbeats of a run: before each, other runners act; one without a time threw, which is swallowed.
  -- The answer is whether the lock was lost.
  unfoldable pub heartbeats : String → List ((State → State) × Option ℕ) → State → Bool × State
  heartbeats owner [] s = (false, s)
  heartbeats owner ((others, none) ∷ rest) s = heartbeats owner rest (others s)
  heartbeats owner ((others, some now) ∷ rest) s =
      let (kept, t) = renew_lock owner now (others s) in
      let (stolen, u) = heartbeats owner rest t in (not kept || stolen, u)

  unfoldable pub run_held :
      {A : Type 0}
      → List ((State → State) × Option ℕ)
      → (State → State)
      → Bool
      → Result A
      → Option String × State
      → Ended A × State
  run_held beats last released result (none, s) = (could_not_acquire, s)
  run_held beats last released result (some owner, s) =
      let (stolen, t) = heartbeats owner beats s in
      (settle stolen result, if released then release_lock owner (last t) else last t)

  -- `withHeartbeatedLock`, of the function's result, the heartbeats that fall into its run, and what other
  -- runners do after the last of them, and whether the release, whose errors are swallowed, took place.
  unfoldable pub with_heartbeated_lock :
      {A : Type 0}
      → ℕ
      → String
      → ℕ
      → (State → State)
      → (State → State)
      → List ((State → State) × Option ℕ)
      → (State → State)
      → Bool
      → Result A
      → State
      → Ended A × State
  unfolding run_held
  with_heartbeated_lock stale_ms owner now before meanwhile beats last released result s =
      run_held beats last released result (acquire_lock stale_ms owner now before meanwhile s)
