-- ===== src/Tests/Operations.antt =====
-- A migration's lock, the answer to an error, and an audit row.
use davepi.Base.{
  Bool, List, Option, String, [], false, if◌then◌else◌, none, refl, some, true, ℕ, ◌&&◌, ◌<◌, ◌==◌,
  ◌∷◌, ◌≡◌, ◌⊎◌,
}
use davepi.Js.{
  Object, num, undefined, get, has_own, to_text, decimal, Value, str, obj, empty, prop, put,
}
use davepi.Collection.Table.{Rows, table}
use davepi.MigrationLock.{LockRow, acquire_lock, renew_lock, release_lock, lock_name}
use davepi.Collection.{has_match}
use davepi.MigrationLock.{
  lock_name, is_owned_by, Result, returned, finished, settle, heartbeats, with_heartbeated_lock,
}
use davepi.MigrationLock.Heartbeat.{IsHeldThrough, with_heartbeated_lock-finished}
use davepi.MigrationLock.Ownership.{IsGrantedTo, acquire_lock-IsGrantedTo}
use davepi.Errors.Handler.{OtherError, other_error, error_answer, error_answer-hides}
use davepi.Audit.{redact, walk}
use davepi.Audit.Diff.{
  change, changes, unique, has_either, is_changed, compute_diff, compute_diff-exact,
}
use davepi.Audit.Redacted.{IsRedacted, redact-IsRedacted}

abbrev crashed : LockRow
crashed = record { owner = "old"; locked_at = 100 }

abbrev crashed_rows : Rows LockRow
crashed_rows k = some crashed

abbrev after_reaping : Rows LockRow
after_reaping = (acquire_lock (table LockRow) 500 "new" 1000 (λ s. s) (λ s. s) crashed_rows).1

lock_reaped :
    acquire_lock (table LockRow) 500 "new" 1000 (λ s. s) (λ s. s) crashed_rows
    ≡ (some "new", after_reaping)
unfolding acquire_lock
lock_reaped = refl

acquire_lock-IsGrantedTo_example : IsGrantedTo (table LockRow) 500 "new" 1000 after_reaping
acquire_lock-IsGrantedTo_example =
    acquire_lock-IsGrantedTo (table LockRow) 500 "new" 1000 (λ s. s) (λ s. s) crashed_rows
      after_reaping lock_reaped

abbrev secret_error : OtherError
secret_error = record { status = none; status_code = none; message = "password is hunter2" }

abbrev dull_error : OtherError
dull_error = record { status = none; status_code = none; message = "no disk" }

error_answer-hides_example :
    (error_answer true (other_error secret_error) ≡ error_answer true (other_error dull_error))
    × ((is_production : Bool)
        → ((error_answer is_production (other_error secret_error)).code ≡ "INTERNAL")
          × (0 < (error_answer is_production (other_error secret_error)).status))
error_answer-hides_example = error_answer-hides secret_error dull_error refl refl

abbrev login : Value
login = obj (prop "user" (obj (prop "Password" (str "hunter2") empty)) empty)

abbrev lower_password : String → String
lower_password s = if s == "Password" then "password" else s

login_redacted :
    redact lower_password ("password" ∷ []) login
    ≡ obj (prop "user" (obj (prop "Password" (str "[REDACTED]") empty)) empty)
unfolding redact walk put
login_redacted = refl

redact-IsRedacted_example :
    IsRedacted lower_password ("password" ∷ []) (redact lower_password ("password" ∷ []) login)
redact-IsRedacted_example = redact-IsRedacted lower_password ("password" ∷ []) login refl

abbrev one_beat : List ((Rows LockRow → Rows LockRow) × Option ℕ)
one_beat = ((λ s. s), some 1200) ∷ ((λ s. s), none) ∷ []

abbrev migrated : Result String
migrated = returned "migrated"

abbrev after_run : Rows LockRow
after_run =
    (with_heartbeated_lock (table LockRow) 500 "new" 1000 (λ s. s) (λ s. s) one_beat (λ s. s) true
      migrated crashed_rows).1

run_finished :
    with_heartbeated_lock
      (table LockRow)
      500
      "new"
      1000
      (λ s. s)
      (λ s. s)
      one_beat
      (λ s. s)
      true
      migrated
      crashed_rows
    ≡ (finished "migrated", after_run)
unfolding with_heartbeated_lock acquire_lock heartbeats renew_lock release_lock settle
run_finished = refl

with_heartbeated_lock-finished_example :
    (migrated ≡ returned "migrated")
    × ((true ≡ false) ⊎ (has_match (is_owned_by "new") (after_run lock_name) ≡ false))
    × ((u : Rows LockRow) × IsGrantedTo (table LockRow) 500 "new" 1000 u
        × IsHeldThrough (table LockRow) "new" one_beat u)
with_heartbeated_lock-finished_example =
    with_heartbeated_lock-finished (table LockRow) 500 "new" 1000 (λ s. s) (λ s. s) one_beat
      (λ s. s) true migrated crashed_rows after_run "migrated" run_finished

abbrev unpaid : Object
unpaid = prop "_id" (str "i1") (prop "total" (num 7) empty)

abbrev paid : Object
paid = prop "_id" (str "i2") (prop "total" (num 7) (prop "paid" (num 7) empty))

paid_diff :
    compute_diff to_text (some unpaid) (some paid) ≡ prop "paid" (change undefined (num 7)) empty
unfolding compute_diff to_text unique changes get put decimal
paid_diff = refl

compute_diff-exact_example :
    (has_own "paid" (compute_diff to_text (some unpaid) (some paid)) ≡ (
      has_either to_text (some unpaid) (some paid) "paid"
      && is_changed to_text (some unpaid) (some paid) "paid"))
    × (has_own "paid" (compute_diff to_text (some unpaid) (some paid)) ≡ true
        → get "paid" (compute_diff to_text (some unpaid) (some paid)) ≡ change undefined (num 7))
unfolding get
compute_diff-exact_example = compute_diff-exact to_text (some unpaid) (some paid) "paid"
