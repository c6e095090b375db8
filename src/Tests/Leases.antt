-- ===== src/Tests/Leases.antt =====
-- Processes that share the lock of a scheduled job.
use davepi.Base.{String, none, refl, some, ◌≡◌}
use davepi.Collection.Table.{table}
use davepi.CronLock.{LockRow, Lease, build_lease, acquire}
use davepi.CronLock.World.{World, after_acquire, Reachable, starts, goes, acquires}
use davepi.CronLock.Exclusion.{live_leases-one}

-- Two processes and a lease of ten seconds.
lease_taken :
    (acquire (table LockRow) "sweep" "p1" 10 1000 (λ k. none)).0 ≡ some (build_lease "p1" 10 11000)
unfolding acquire
lease_taken = refl

abbrev leased : World (table LockRow) "sweep"
leased =
    after_acquire (table LockRow) "sweep"
      (record { now = 1000; state = λ k. none; leases = λ h. none }) "p1"
      (acquire (table LockRow) "sweep" "p1" 10 1000 (λ k. none))

abbrev p1_lease : Lease
p1_lease = build_lease "p1" 10 11000

leased-Reachable : Reachable (table LockRow) "sweep" leased
leased-Reachable =
    goes (starts 1000 (λ k. none))
      (acquires (record { now = 1000; state = λ k. none; leases = λ h. none }) "p1" 10 refl)

leased_p1 : leased.leases "p1" ≡ some p1_lease
unfolding acquire
leased_p1 = refl

live_leases-one_example : ◌≡◌ {A = String} "p1" "p1"
unfolding acquire
live_leases-one_example =
    live_leases-one (table LockRow) "sweep" leased "p1" "p1" p1_lease p1_lease leased-Reachable
      leased_p1 leased_p1 refl refl
