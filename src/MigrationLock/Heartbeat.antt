-- ===== src/MigrationLock/Heartbeat.antt =====
-- migrations/lock.js: what a run under the lock shows of it.
use davepi.Base.{
  Bool, Bool-cases, List, Option, String, [], ap, arith, false, if◌then◌else◌, inl, inr, none, refl,
  some, subst, sym, true, ℕ, ◌∙◌, ◌∷◌, ◌≡◌, ◌⊎◌,
}
use davepi.Collection.{Collection, has_match, drop_if}
use davepi.MigrationLock.{
  LockRow, lock_name, is_owned_by, acquire_lock, release_lock, renew_lock, Result, returned, threw,
  Ended, finished, settle, heartbeats, run_held, reap, after_insert, with_heartbeated_lock,
}
use davepi.MigrationLock.Ownership.{IsGrantedTo, acquire_lock-IsGrantedTo}

has_match-drop_if : (p : LockRow → Bool) (o : Option LockRow) → has_match p (drop_if p o) ≡ false
has_match-drop_if p none = refl
has_match-drop_if p (some q) = elim (Bool-cases (p q)) [ inl e ↦ rw e refl | inr e ↦ rw e e ]

module _ (db : Collection LockRow) where
  open db use {State, insert, row_at, was_found, delete_row}

  -- Each heartbeat of a run that did not throw found the owner's row.
  abbrev pub IsHeldThrough : String → List ((State → State) × Option ℕ) → State → Type 0
  IsHeldThrough owner [] s = Unit
  IsHeldThrough owner ((others, none) ∷ rest) s = IsHeldThrough owner rest (others s)
  IsHeldThrough owner ((others, some now) ∷ rest) s =
      (has_match (is_owned_by owner) (row_at lock_name (others s)) ≡ true)
      × IsHeldThrough owner rest (renew_lock db owner now (others s)).1

  heartbeats-IsHeldThrough :
      (owner : String) (beats : List ((State → State) × Option ℕ)) (s : State)
      → (heartbeats db owner beats s).0 ≡ false
      → IsHeldThrough owner beats s
  unfolding heartbeats
  heartbeats-IsHeldThrough owner [] s h = tt
  heartbeats-IsHeldThrough owner ((others, none) ∷ rest) s h =
      heartbeats-IsHeldThrough owner rest (others s) h
  heartbeats-IsHeldThrough owner ((others, some now) ∷ rest) s h =
      let kept : (renew_lock db owner now (others s)).0 ≡ true = ground arith in
      let found =
        was_found lock_name (is_owned_by owner) (λ row. record row { locked_at = now })
          (others s) in
      (
        sym found ∙ unfold renew_lock in kept,
        heartbeats-IsHeldThrough owner rest (renew_lock db owner now (others s)).1 (ground arith),
      )

  reap-owner :
      (stale_ms : ℕ) (owner holder : String) (now : ℕ) (meanwhile : State → State) (s t : State)
      (o : Option LockRow)
      → reap db stale_ms owner now meanwhile s o ≡ (some holder, t)
      → holder ≡ owner
  unfolding reap
  reap-owner stale_ms owner holder now meanwhile s t none e = cc
  reap-owner stale_ms owner holder now meanwhile s t (some existing) e = ground arith

  acquire_lock-owner :
      (stale_ms : ℕ) (owner holder : String) (now : ℕ) (before meanwhile : State → State)
      (s t : State) (o : Option State)
      → after_insert db stale_ms owner now before meanwhile s o ≡ (some holder, t)
      → holder ≡ owner
  unfolding after_insert
  acquire_lock-owner stale_ms owner holder now before meanwhile s t none e =
      reap-owner stale_ms owner holder now meanwhile (before s) t _ e
  acquire_lock-owner stale_ms owner holder now before meanwhile s t (some v) e = ground arith

  settle-finished :
      {A : Type 0} (stolen : Bool) (result : Result A) (a : A)
      → settle stolen result ≡ finished a
      → (stolen ≡ false) × (result ≡ returned a)
  unfolding settle
  settle-finished stolen (threw m) a h = cc
  settle-finished true (returned b) a h = cc
  settle-finished false (returned b) a h = (refl, cc)

  module _ {A : Type 0} (stale_ms : ℕ) (owner : String) (now : ℕ) (before meanwhile : State → State)
      (beats : List ((State → State) × Option ℕ)) (last : State → State) (released : Bool)
      (result : Result A) (s t : State) where
    abbrev IsFinished : A → Type 0
    IsFinished a =
        (result ≡ returned a)
        × ((released ≡ false) ⊎ (has_match (is_owned_by owner) (row_at lock_name t) ≡ false))
        × ((u : State) × IsGrantedTo db stale_ms owner now u × IsHeldThrough owner beats u)

    held-IsFinished :
        (a : A) (u : State)
        → acquire_lock db stale_ms owner now before meanwhile s ≡ (some owner, u)
        → run_held db beats last released result (some owner, u) ≡ (finished a, t)
        → IsFinished a
    unfolding run_held
    held-IsFinished a u taken e =
        let ended =
          settle-finished (heartbeats db owner beats u).0 result a
            (ap {B = Ended A} (λ (p : Ended A × State). p.0) e) in
        let left = ap {B = State} (λ (p : Ended A × State). p.1) e in
        (
          ended.1,
          leaves_none released refl left,
          (
            u,
            acquire_lock-IsGrantedTo db stale_ms owner now before meanwhile s u taken,
            heartbeats-IsHeldThrough owner beats u ended.0,
          ),
        )
      where
        cleared :
            (v : State)
            → has_match (is_owned_by owner) (row_at lock_name (release_lock db owner v)) ≡ false
        cleared v =
            unfold release_lock in
            ap (has_match (is_owned_by owner)) (delete_row lock_name (is_owned_by owner) v)
            ∙ has_match-drop_if (is_owned_by owner) (row_at lock_name v)

        leaves_none :
            (on : Bool)
            → released ≡ on
            → (if on
                then release_lock db owner (last (heartbeats db owner beats u).1)
                else last (heartbeats db owner beats u).1)
              ≡ t
            → (released ≡ false) ⊎ (has_match (is_owned_by owner) (row_at lock_name t) ≡ false)
        leaves_none false e' left = inl e'
        leaves_none true e' left = inr (
            subst (λ x. has_match (is_owned_by owner) (row_at lock_name x) ≡ false) left
              (cleared (last (heartbeats db owner beats u).1)))

    -- A run under the lock that gives a result was granted the lock, found its own row at each heartbeat
    -- that did not throw, and leaves no row of its own if the release took place.
    pub with_heartbeated_lock-finished :
        (a : A)
        → with_heartbeated_lock db stale_ms owner now before meanwhile beats last released result s
          ≡ (finished a, t)
        → (result ≡ returned a)
          × ((released ≡ false) ⊎ (has_match (is_owned_by owner) (row_at lock_name t) ≡ false))
          × ((u : State) × IsGrantedTo db stale_ms owner now u × IsHeldThrough owner beats u)
    unfolding with_heartbeated_lock
    with_heartbeated_lock-finished a h =
        go (acquire_lock db stale_ms owner now before meanwhile s) refl h
      where
        go :
            (p : Option String × State)
            → acquire_lock db stale_ms owner now before meanwhile s ≡ p
            → run_held db beats last released result p ≡ (finished a, t)
            → IsFinished a
        go (none, u) taken e = unfold run_held in cc
        go (some holder, u) taken e =
            let same =
              acquire_lock-owner stale_ms owner holder now before meanwhile s u
                (insert lock_name (record { owner = owner; locked_at = now }) s)
                (unfold acquire_lock in taken) in
            subst
              (λ o.
                acquire_lock db stale_ms owner now before meanwhile s ≡ (some o, u)
                → run_held db beats last released result (some o, u) ≡ (finished a, t)
                → IsFinished a)
              (sym same) (held-IsFinished a u) taken e
