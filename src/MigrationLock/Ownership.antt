-- ===== src/MigrationLock/Ownership.antt =====
-- migrations/lock.js: who owns the lock after a call.
use davepi.Base.{
  Bool, Bool-cases, Option, Option-cases, String, ap, arith, false, if◌then◌else◌, inl, inr, none,
  refl, some, subst, sym, true, ℕ, ◌∙◌, ◌≡◌, ◌⊎◌,
}
use davepi.Collection.{Collection, has_match, change_if}
use davepi.MigrationLock.{
  LockRow, lock_name, any_row, is_owned_by, is_locked_at, is_stale, reaped, reap, after_insert,
  acquire_lock, release_lock, renew_lock,
}

if_some : (b : Bool) (x y : LockRow) → (if b then some x else some y) ≡ some (if b then x else y)
if_some true x y = refl
if_some false x y = refl

module _ (db : Collection LockRow) where
  open db use {
    State, row_at, insert, find_one, find_and_update, delete_one, insert_free, insert_taken,
    was_found, found_row, delete_row,
  }

  -- No row, or one that was locked more than the stale time ago.
  abbrev pub MayTake : ℕ → ℕ → Option LockRow → Type 0
  MayTake stale_ms now none = Unit
  MayTake stale_ms now (some row) = is_stale stale_ms now row ≡ true

  -- The operation that grants the lock: an insert, or an update of the row of a certain time.
  abbrev pub WroteRow : String → ℕ → State → State → Type 0
  WroteRow owner now u t =
      (insert lock_name (record { owner = owner; locked_at = now }) u ≡ some t)
      ⊎ ((time : ℕ) × (find_and_update lock_name (is_locked_at time)
              (λ row. record { owner = owner; locked_at = now }) u
            ≡ (true, t)))

  -- The row was free to take when the operation ran that wrote the owner's.
  abbrev pub IsGrantedTo : ℕ → String → ℕ → State → Type 0
  IsGrantedTo stale_ms owner now t =
      (u : State) × MayTake stale_ms now (row_at lock_name u)
      × WroteRow owner now u t
      × (row_at lock_name t ≡ some (record { owner = owner; locked_at = now }))

  module _ (stale_ms : ℕ) (owner : String) (now : ℕ) (before meanwhile : State → State) where
    abbrev taken_over : LockRow → LockRow
    taken_over row = record { owner = owner; locked_at = now }

    reaped-IsGrantedTo :
        (u t : State) (existing : LockRow) (o : Option LockRow) (p : Bool × State)
        → is_stale stale_ms now existing ≡ true
        → row_at lock_name u ≡ o
        → find_and_update lock_name (is_locked_at existing.locked_at) taken_over u ≡ p
        → p.0 ≡ has_match (is_locked_at existing.locked_at) o
        → row_at lock_name p.1 ≡ change_if (is_locked_at existing.locked_at) taken_over o
        → reaped db owner p ≡ (some owner, t)
        → IsGrantedTo stale_ms owner now t
    reaped-IsGrantedTo u t existing o (false, v) old at done hit changed e = absurd (cc)
    reaped-IsGrantedTo u t existing none (true, v) old at done hit changed e = absurd (cc)
    reaped-IsGrantedTo u t existing (some row) (true, v) old at done hit changed e =
        let same : v ≡ t = ap {B = State} (λ (p : Option String × State). p.1) e in
        (
          u,
          rw at (ground arith),
          inr (existing.locked_at, done ∙ ap {B = Bool × State} (λ (x : State). (true, x)) same),
          subst (λ x. row_at lock_name x ≡ some (taken_over row)) same (changed ∙ rw (← hit) refl),
        )

    reap-IsGrantedTo :
        (s t : State) (o : Option LockRow)
        → reap db stale_ms owner now meanwhile s o ≡ (some owner, t)
        → IsGrantedTo stale_ms owner now t
    unfolding reap
    reap-IsGrantedTo s t none e = cc
    reap-IsGrantedTo s t (some existing) e = elim (Bool-cases (is_stale stale_ms now existing)) [
      | inl old ↦
          reaped-IsGrantedTo (meanwhile s) t existing (row_at lock_name (meanwhile s))
            (find_and_update lock_name (is_locked_at existing.locked_at) taken_over (meanwhile s))
            old refl refl (was_found lock_name (is_locked_at existing.locked_at) _ (meanwhile s))
            (found_row lock_name (is_locked_at existing.locked_at) _ (meanwhile s)) (ground arith)
      | inr new ↦ absurd (ground arith)
    ]

    -- Whatever other runners do meanwhile, `acquireLock` returns its owner only if its operation met no
    -- row or one that was locked more than the stale time ago, and then the row is the owner's.
    pub acquire_lock-IsGrantedTo :
        (s t : State)
        → acquire_lock db stale_ms owner now before meanwhile s ≡ (some owner, t)
        → IsGrantedTo stale_ms owner now t
    unfolding acquire_lock
    acquire_lock-IsGrantedTo s t e = go (insert lock_name row s) refl e
      where
        o_of : State → Option State
        o_of v = some v

        row : LockRow
        row = record { owner = owner; locked_at = now }

        go :
            (o : Option State)
            → insert lock_name row s ≡ o
            → after_insert db stale_ms owner now before meanwhile s o ≡ (some owner, t)
            → IsGrantedTo stale_ms owner now t
        go none done e =
            reap-IsGrantedTo (before s) t (find_one lock_name any_row (before s))
              (unfold after_insert in e)
        go (some v) done e = elim (Option-cases (row_at lock_name s)) [
          | inl free ↦
              let (u, made, written) = insert_free lock_name row s free in
              let given : o_of v ≡ o_of t = unfold after_insert in ground arith in
              let same : some u ≡ some t = sym made ∙ done ∙ given in
              (
                s,
                rw free tt,
                inl (made ∙ same),
                subst (λ x. row_at lock_name x ≡ some row) (cc same) written,
              )
          | inr (q, taken) ↦ absurd (cc (insert_taken lock_name row q s taken))
        ]

  -- To a runner that is not the row's owner, `renewLock` answers no, and neither it nor `releaseLock`
  -- changes the row; to the owner it answers yes, with the time renewed, and `releaseLock` removes the row.
  pub renew_lock-release_lock :
      (owner : String) (now : ℕ) (s : State) (row : LockRow)
      → row_at lock_name s ≡ some row
      → let mine = is_owned_by owner row in
        ((renew_lock db owner now s).0 ≡ mine)
        × (row_at lock_name (renew_lock db owner now s).1
            ≡ some (if mine then record row { locked_at = now } else row))
        × (row_at lock_name (release_lock db owner s) ≡ (if mine then none else some row))
  unfolding renew_lock release_lock
  renew_lock-release_lock owner now s row at = (
    was_found lock_name (is_owned_by owner) _ s ∙ rw at refl,
    found_row lock_name (is_owned_by owner) _ s ∙ rw at (if_some (is_owned_by owner row) _ row),
    delete_row lock_name (is_owned_by owner) s ∙ rw at refl,
  )
