-- ===== src/Retention.antt =====
-- utils/retention.js: the purge of tombstoned records. A time is a number of milliseconds; `deletedAt` is
-- such a number, or absent.
pub mod Expired
use davepi.Base.{
  Bool, List, Option, String, [], false, if◌then◌else◌, is_empty, leb, ltb, none, some, ℕ, ◌*◌, ◌-◌,
  ◌∷◌,
}
use davepi.Program.{Program, done, failed, ask, call, ◌>>=◌, ◌>>◌}

-- `schema.softDelete`, where it is not `false`, and its `retentionDays` where it is a number; a number
-- that is negative or not finite is `some none`.
pub data SoftDelete : Type 0 where
  disabled : SoftDelete
  enabled : (retention_days : Option (Option ℕ)) → SoftDelete

-- A loaded resource: its path, its collection, its options and the file fields; `has_model` is whether mongoose knows its
-- collection.
pub record Resource : Type 0 where
  pub path : String
  pub collection : String
  pub soft_delete : SoftDelete
  pub has_model : Bool
  pub file_fields : List String

-- The filter `{ deletedAt: { $lt: cutoff, $ne: null } }`, on a record's `deletedAt`; a cutoff before the
-- epoch is one that nothing precedes.
unfoldable pub is_expired : Option ℕ → Option ℕ → Bool
is_expired cutoff none = false
is_expired none (some deleted_at) = false
is_expired (some cutoff) (some deleted_at) = ltb deleted_at cutoff

-- `retentionDays`, or the default of the environment; `none` is a number that is negative or not finite.
abbrev pub days_of : Option ℕ → Option (Option ℕ) → Option ℕ
days_of default_days none = default_days
days_of default_days (some days) = days

abbrev pub day_ms : ℕ
day_ms = 24 * 60 * 60 * 1000

-- `now - days * 24 * 60 * 60 * 1000`
unfoldable pub cutoff_of : ℕ → ℕ → Option ℕ
cutoff_of now days = if leb (days * day_ms) now then some (now - days * day_ms) else none

-- The File metadata of an expiring document: the keys of its blobs, by field.
abbrev pub Document : Type 0
Document = String → Option String

pub data Command : Type 0 where
  find_expiring : (collection : String) → (cutoff : Option ℕ) → Command
  remove_blob : (key : String) → Command
  delete_many : (collection : String) → (cutoff : Option ℕ) → Command

-- `none` is a command that throws; what a blob's removal throws is logged and dropped.
abbrev pub Answer : Command → Type 0
Answer (find_expiring collection cutoff) = Option (List Document)
Answer (remove_blob key) = Unit {0}
Answer (delete_many collection cutoff) = Option ℕ

abbrev pub Purge : Type 0 → Type 0
Purge A = Program Command Answer Unit A

unfoldable pub remove_doc_blobs : List String → Document → Purge (Unit {0})
remove_doc_blobs [] doc = done tt
remove_doc_blobs (name ∷ names) doc = do
  elim (doc name) [ none ↦ done tt | some key ↦ call (remove_blob key) ]
  remove_doc_blobs names doc

unfoldable pub remove_all_blobs : List String → List Document → Purge (Unit {0})
remove_all_blobs names [] = done tt
remove_all_blobs names (doc ∷ docs) = do remove_doc_blobs names doc; remove_all_blobs names docs

-- What a failed find leaves of the turn: nothing.
abbrev pub when_found : List String → Option (List Document) → Purge (Option (Unit {0}))
when_found names none = done none
when_found names (some docs) = remove_all_blobs names docs >>= λ _. done (some tt)

-- The removal of the blobs, where the schema has file fields; `none` is an error.
abbrev pub remove_blobs : Resource → Option ℕ → Purge (Option (Unit {0}))
remove_blobs s cutoff =
    if is_empty s.file_fields
    then done (some tt)
    else (call (find_expiring s.collection cutoff) >>= (λ docs. when_found s.file_fields docs))

-- The deletion, unless the removal of the blobs failed; `none` is an error.
abbrev pub delete_after : Resource → Option ℕ → Option (Unit {0}) → Purge (Option ℕ)
delete_after s cutoff none = done none
delete_after s cutoff (some u) = call (delete_many s.collection cutoff)

-- The `try` of one resource; what it throws is logged, and nothing is counted.
unfoldable pub purge_before : Resource → Option ℕ → Purge (Option ℕ)
purge_before s cutoff = do removed ← remove_blobs s cutoff; delete_after s cutoff removed

module _ (now : ℕ) (default_days : Option ℕ) where
  -- One turn of the loop; `none` leaves the resource out of the summary.
  abbrev pub purge_resource : Resource → SoftDelete → Purge (Option ℕ)
  purge_resource s disabled = done none
  purge_resource s (enabled retention_days) = elim (days_of default_days retention_days) [
    | none ↦ done none
    | some days ↦ if s.has_model then purge_before s (cutoff_of now days) else done none
  ]

  abbrev pub add_count : String → Option ℕ → List (String × ℕ) → List (String × ℕ)
  add_count path none summary = summary
  add_count path (some n) summary = (path, n) ∷ summary

  -- `purgeExpiredSoftDeletes`
  unfoldable pub purge_expired_soft_deletes : List Resource → Purge (List (String × ℕ))
  purge_expired_soft_deletes [] = done []
  purge_expired_soft_deletes (s ∷ ss) = do
    count ← purge_resource s s.soft_delete
    summary ← purge_expired_soft_deletes ss
    done (add_count s.path count summary)
