-- ===== src/CronLock/Exclusion.antt =====
-- lock.js: the leases of several processes, in the states that they reach.
use davepi.Base.{
  Bool, Bool-cases, Option, String, ap, arith, eq_iff, false, inl, inr, none, refl, some, subst,
  sym, text_cases, true, ℕ, ◌*◌, ◌+◌, ◌==◌, ◌∙◌, ◌≡◌, ◌≤◌,
}
use davepi.Collection.{Collection, has_match, change_if}
use davepi.CronLock.{
  LockRow, Lease, is_stale, is_held_by, build_lease, acquire, beaten, heartbeat, release,
}
use davepi.CronLock.World.{
  is_free, held_row, acquire-exact, World, after_acquire, with_lease, Step, acquires, beats,
  releases, passes, sweeps, Reachable, starts, goes, is_live_lease, IsKept, IsConsistent,
}

changed-held :
    (o : Option LockRow) (a h : String) (expires_at : ℕ)
    → a ≡ h
    → true ≡ has_match (is_held_by a) o
    → change_if (is_held_by a) (λ q. record q { expires_at = expires_at }) o
      ≡ some (held_row h expires_at)
changed-held none a h expires_at p hit = cc
changed-held (some q) a h expires_at p hit =
    rw (← hit) (ap (λ i. some (held_row i expires_at)) ((eq_iff q.holder_id a).0 (sym hit) ∙ p))

lost-live :
    (o : Option LockRow) (a h : String) (expires_at : ℕ)
    → a ≡ h
    → o ≡ some (held_row h expires_at)
    → false ≡ has_match (is_held_by a) o
    → ⊥
lost-live o a h expires_at p at hit =
    ground (arith, hit ∙ ap (has_match (is_held_by a)) at, eq_iff h a)

module _ (db : Collection LockRow) (name : String) where
  open db use {
    State, row_at, upsert_one, find_and_update, delete_one, upsert_free, upsert_match, upsert_taken,
    was_found, found_row, delete_row,
  }

  -- What the changed lease and the others have to meet.
  set_lease-IsConsistent :
      (w : World db name) (h : String) (lease : Lease) (t : State)
      → IsKept db name (with_lease db name w h (lease, t)) h lease
      → ((j : String) (other : Lease)
          → (h == j) ≡ false
          → w.leases j ≡ some other
          → IsKept db name (with_lease db name w h (lease, t)) j other)
      → IsConsistent db name (with_lease db name w h (lease, t))
  set_lease-IsConsistent w h lease t own others j other e = elim (text_cases h j) [
    | inl same ↦
        let one : lease ≡ other = ground (arith, eq_iff h j) in
        subst (λ x. IsKept db name (with_lease db name w h (lease, t)) j x) one
          (subst (λ i. IsKept db name (with_lease db name w h (lease, t)) i lease) same own)
    | inr differ ↦ others j other differ (ground arith)
  ]

  -- A step that leaves the clock and the leases keeps them, if it keeps the row of each live lease.
  other-IsKept :
      (w : World db name) (t : State) (leases : String → Option Lease) (j : String) (other : Lease)
      → IsConsistent db name w
      → w.leases j ≡ some other
      → ((row : LockRow)
          → row.holder_id ≡ j
          → is_stale w.now row ≡ false
          → row_at name w.state ≡ some row
          → row_at name t ≡ some row)
      → IsKept db name (record w { state = t; leases = leases }) j other
  other-IsKept w t leases j other v e keeps = (
    (v j other e).0,
    λ live. keeps (held_row j other.expires_at) refl (ground arith) ((v j other e).1 live),
  )

  sweeps-IsConsistent :
      (w : World db name)
      → IsConsistent db name w
      → IsConsistent db name (record w { state = delete_one name (is_stale w.now) w.state })
  sweeps-IsConsistent w v j other e =
      other-IsKept w (delete_one name (is_stale w.now) w.state) w.leases j other v e
        λ row own fresh at. delete_row name (is_stale w.now) w.state ∙ rw at (rw fresh refl)

  passes-IsConsistent :
      (w : World db name) (later : ℕ)
      → w.now ≤ later
      → IsConsistent db name w
      → IsConsistent db name (record w { now = later })
  passes-IsConsistent w later h v j other e =
      ((v j other e).0, λ live. (v j other e).1 (ground arith))

  not_held : (a b h j : String) → a ≡ j → b ≡ h → (h == j) ≡ false → (a == b) ≡ false
  not_held a b h j p q n = ground (arith, eq_iff a b, eq_iff h j)

  releases-IsConsistent :
      (w : World db name) (h : String) (lease : Lease)
      → w.leases h ≡ some lease
      → IsConsistent db name w
      → IsConsistent db name (with_lease db name w h (release db name lease w.state))
  unfolding release
  releases-IsConsistent w h lease e v = elim (Bool-cases lease.released) [
    | inl done ↦ rw done (
        set_lease-IsConsistent w h (record lease { released = true }) w.state
          ((v h lease e).0, λ live. cc) (λ j other n f. v j other f))
    | inr open_ ↦ rw open_ (
        set_lease-IsConsistent w h (record lease { released = true })
          (delete_one name (is_held_by lease.holder_id) w.state) ((v h lease e).0, λ live. cc)
          λ j other n f.
            other-IsKept w (delete_one name (is_held_by lease.holder_id) w.state) w.leases j other v
              f
              λ row own fresh at.
                delete_row name (is_held_by lease.holder_id) w.state
                ∙ rw at
                    (rw (not_held row.holder_id lease.holder_id h j own (v h lease e).0 n) refl))
  ]

  beaten-IsConsistent :
      (w : World db name) (h : String) (lease : Lease) (expires_at : ℕ) (p : Bool × State)
      → w.leases h ≡ some lease
      → IsConsistent db name w
      → p.0 ≡ has_match (is_held_by lease.holder_id) (row_at name w.state)
      → row_at name p.1
        ≡ change_if
            (is_held_by lease.holder_id)
            (λ q. record q { expires_at = expires_at })
            (row_at name w.state)
      → IsConsistent db name (with_lease db name w h (beaten db name lease expires_at p).1)
  unfolding beaten
  beaten-IsConsistent w h lease expires_at (true, t) e v hit changed =
      set_lease-IsConsistent w h (record lease { expires_at = expires_at }) t
        (
          (v h lease e).0,
          λ live.
              changed
              ∙ changed-held (row_at name w.state) lease.holder_id h expires_at (v h lease e).0 hit,
        )
        λ j other n f. other-IsKept w t w.leases j other v f λ row own fresh at.
          changed
          ∙ rw at (rw (not_held row.holder_id lease.holder_id h j own (v h lease e).0 n) refl)
  beaten-IsConsistent w h lease expires_at (false, t) e v hit changed =
      set_lease-IsConsistent w h (record lease { aborted = true }) t
        (
          (v h lease e).0,
          λ live. absurd (
              lost-live (row_at name w.state) lease.holder_id h lease.expires_at (v h lease e).0
                ((v h lease e).1 live) hit),
        )
        λ j other n f. other-IsKept w t w.leases j other v f λ row own fresh at.
          changed
          ∙ rw at (rw (not_held row.holder_id lease.holder_id h j own (v h lease e).0 n) refl)

  beats-IsConsistent :
      (w : World db name) (h : String) (lease : Lease)
      → w.leases h ≡ some lease
      → IsConsistent db name w
      → IsConsistent db name (with_lease db name w h (heartbeat db name lease w.now w.state).1)
  unfolding heartbeat
  beats-IsConsistent w h lease e v = elim (Bool-cases lease.released) [
    | inl done ↦ rw done (
        set_lease-IsConsistent w h (record lease { released = true }) w.state
          ((v h lease e).0, λ live. cc) (λ j other n f. v j other f))
    | inr open_ ↦ rw open_ (
        beaten-IsConsistent w h (record lease { released = false })
          (w.now + lease.lease_seconds * 1000)
          (find_and_update name (is_held_by lease.holder_id)
            (λ q. record q { expires_at = w.now + lease.lease_seconds * 1000 }) w.state)
          (e ∙ rw (← open_) refl) v (was_found name (is_held_by lease.holder_id) _ w.state)
          (found_row name (is_held_by lease.holder_id) _ w.state))
  ]

  acquires-IsConsistent :
      (w : World db name) (h : String) (lease_seconds : ℕ)
      → w.leases h ≡ none
      → IsConsistent db name w
      → IsConsistent db name
          (after_acquire db name w h (acquire db name h lease_seconds w.now w.state))
  acquires-IsConsistent w h lease_seconds fresh v =
      elim (acquire-exact db name h lease_seconds w.now w.state) [
        | inl (free, (t, done, written)) ↦ rw done (
            set_lease-IsConsistent w h (build_lease h lease_seconds (w.now + lease_seconds * 1000))
              t (refl, λ live. written)
              λ j other n f. (
                (v j other f).0,
                λ live. absurd (not_free w j other ((v j other f).1 live) live free),
              ))
        | inr (taken, same) ↦ rw same v
      ]
    where
      not_free :
          (w : World db name) (j : String) (other : Lease)
          → row_at name w.state ≡ some (held_row j other.expires_at)
          → is_live_lease db name w.now other ≡ true
          → is_free w.now (row_at name w.state) ≡ true
          → ⊥
      not_free w j other at live free = ground (arith, ap (is_free w.now) at)

  Step-IsConsistent :
      (w x : World db name) → Step db name w x → IsConsistent db name w → IsConsistent db name x
  Step-IsConsistent w x (acquires _ h secs e) v = acquires-IsConsistent w h secs e v
  Step-IsConsistent w x (beats _ h lease e) v = beats-IsConsistent w h lease e v
  Step-IsConsistent w x (releases _ h lease e) v = releases-IsConsistent w h lease e v
  Step-IsConsistent w x (passes _ later e) v = passes-IsConsistent w later e v
  Step-IsConsistent w x (sweeps _) v = sweeps-IsConsistent w v

  Reachable-IsConsistent : (w : World db name) → Reachable db name w → IsConsistent db name w
  Reachable-IsConsistent w (starts now s) = λ h lease e. cc
  Reachable-IsConsistent w (goes {v} r step) =
      Step-IsConsistent v w step (Reachable-IsConsistent v r)

  -- In every state that the processes can reach, on one clock and with fresh holder ids, two leases that
  -- were not released and have not run out are one process's.
  pub live_leases-one :
      (w : World db name) (h j : String) (lease other : Lease)
      → Reachable db name w
      → w.leases h ≡ some lease
      → w.leases j ≡ some other
      → is_live_lease db name w.now lease ≡ true
      → is_live_lease db name w.now other ≡ true
      → h ≡ j
  live_leases-one w h j lease other r e f live live' =
      let at = (Reachable-IsConsistent w r h lease e).1 live in
      let at' = (Reachable-IsConsistent w r j other f).1 live' in same (sym at ∙ at')
    where
      same : some (held_row h lease.expires_at) ≡ some (held_row j other.expires_at) → h ≡ j
      same p =
          ap {B = String} (λ (o : Option LockRow). elim o [ none ↦ h | some q ↦ q.holder_id ]) p
