-- ===== src/CronLock/World.antt =====
-- lock.js: when `acquire` succeeds, and the processes that share a lock as a step relation.
use davepi.Base.{
  Bool, Bool-cases, Option, Option-cases, String, false, if◌then◌else◌, inl, inr, leb, none, not,
  refl, some, true, ℕ, ◌&&◌, ◌*◌, ◌+◌, ◌==◌, ◌≡◌, ◌≤◌, ◌⊎◌,
}
use davepi.Collection.{Collection}
use davepi.CronLock.{LockRow, Lease, is_stale, build_lease, acquired, acquire, heartbeat, release}

-- There is no row, or a stale one.
abbrev pub is_free : ℕ → Option LockRow → Bool
is_free now none = true
is_free now (some q) = is_stale now q

abbrev pub held_row : String → ℕ → LockRow
held_row holder_id expires_at = record { holder_id = holder_id; expires_at = expires_at }

module _ (db : Collection LockRow) (name : String) where
  open db use {
    State, row_at, upsert_one, find_and_update, delete_one, upsert_free, upsert_match, upsert_taken,
    was_found, found_row, delete_row,
  }

  -- What `acquire` does: it takes a free lock and writes its own row.
  abbrev pub IsTaken : String → ℕ → ℕ → State → Type 0
  IsTaken holder_id lease_seconds now s =
      (t : State) × (acquire db name holder_id lease_seconds now s
        ≡ (some (build_lease holder_id lease_seconds (now + lease_seconds * 1000)), t))
      × (row_at name t ≡ some (held_row holder_id (now + lease_seconds * 1000)))

  -- `acquire` returns a lease and writes its row where there is no row or a stale one, and else returns
  -- nothing and changes nothing.
  pub acquire-exact :
      (holder_id : String) (lease_seconds now : ℕ) (s : State)
      → ((is_free now (row_at name s) ≡ true) × IsTaken holder_id lease_seconds now s)
        ⊎ ((is_free now (row_at name s) ≡ false)
            × (acquire db name holder_id lease_seconds now s ≡ (none, s)))
  unfolding acquire acquired
  acquire-exact holder_id lease_seconds now s =
      let row = held_row holder_id (now + lease_seconds * 1000) in
      elim (Option-cases (row_at name s)) [
        | inl e ↦
            let (t, done, written) = upsert_free name (is_stale now) (λ q. row) row s e in
            inl (rw e refl, (t, rw done refl, written))
        | inr (q, e) ↦ elim (Bool-cases (is_stale now q)) [
          | inl old ↦
              let (t, done, written) = upsert_match name (is_stale now) (λ q. row) row q s e old in
              inl (rw e old, (t, rw done refl, written))
          | inr new ↦
              inr (rw e new, rw (upsert_taken name (is_stale now) (λ q. row) row q s e new) refl)
        ]
      ]

  -- The clock, the collection and each process's lease; a holder's id stands for its process.
  pub record World : Type 0 where
    pub now : ℕ
    pub state : State
    pub leases : String → Option Lease

  abbrev pub set_lease : String → Lease → (String → Option Lease) → String → Option Lease
  set_lease h lease leases j = if h == j then some lease else leases j

  abbrev pub after_acquire : World → String → Option Lease × State → World
  after_acquire w h (none, t) = record w { state = t }
  after_acquire w h (some lease, t) = record w { state = t; leases = set_lease h lease w.leases }

  abbrev pub with_lease : World → String → Lease × State → World
  with_lease w h (lease, t) = record w { state = t; leases = set_lease h lease w.leases }

  -- Steps of the processes, of the clock, and of the sweep of expired rows.
  pub data Step : World → World → Type 0 where
    acquires :
        (w : World) (h : String) (lease_seconds : ℕ)
        → w.leases h ≡ none
        → Step w (after_acquire w h (acquire db name h lease_seconds w.now w.state))
    beats :
        (w : World) (h : String) (lease : Lease)
        → w.leases h ≡ some lease
        → Step w (with_lease w h (heartbeat db name lease w.now w.state).1)
    releases :
        (w : World) (h : String) (lease : Lease)
        → w.leases h ≡ some lease
        → Step w (with_lease w h (release db name lease w.state))
    passes : (w : World) (later : ℕ) → w.now ≤ later → Step w (record w { now = later })
    sweeps : (w : World) → Step w (record w { state = delete_one name (is_stale w.now) w.state })

  -- From a clock and a collection with no lease.
  pub data Reachable : World → Type 0 where
    starts : (now : ℕ) (s : State) → Reachable (record { now = now; state = s; leases = λ h. none })
    goes : {v : World} {w : World} → Reachable v → Step v w → Reachable w

  -- A lease that was not released and has not run out.
  abbrev pub is_live_lease : ℕ → Lease → Bool
  is_live_lease now lease = not lease.released && leb now lease.expires_at

  -- A lease is its holder's, and while it lives the row is its own.
  abbrev pub IsKept : World → String → Lease → Type 0
  IsKept w h lease =
      (lease.holder_id ≡ h)
      × (is_live_lease w.now lease ≡ true
          → row_at name w.state ≡ some (held_row h lease.expires_at))

  abbrev pub IsConsistent : World → Type 0
  IsConsistent w = (h : String) (lease : Lease) → w.leases h ≡ some lease → IsKept w h lease
