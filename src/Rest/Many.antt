-- ===== src/Rest/Many.antt =====
-- The commands of `PUT /api/{version}/{path}`.
use davepi.Base.{String, [], true, ◌≡◌}
use davepi.Js.{Object, has_own, null, str, get, to_text}
use davepi.Acl.Owner.{IsUnowned}
use davepi.Fragment.{matches_entries}
use davepi.Rest.{
  Resource, Request, Command, update_many, emit_record_event, Reply, UpdateResult, updated,
}
use davepi.Rest.Steps.{Past, Happened}
use davepi.Rest.Created.{IsShownEvent}
use davepi.Rest.Bulk.{declares}

module _ (s : Resource) (req : Request) (owner : String) where
  -- What a bulk update may do: as its first command one update of records that are not tombstoned and, where
  -- the schema has owners, the caller's, with properties that name no owner, and where none matches the
  -- insert of a document with the query's properties; and an event in the caller's name.
  abbrev pub ChangesMany : Past → Command → Type 0
  ChangesMany past (update_many q set upsert) =
      (past ≡ [])
      × (upsert ≡ true)
      × (declares "userId" s.schema.fields ≡ true
          → (has_own "userId" q ≡ true) × (get "userId" q ≡ str owner))
      × (declares "userId" s.schema.fields ≡ true
          → (r : Object) → matches_entries r q ≡ true
          → to_text (get "userId" r) ≡ owner)
      × (s.soft_delete_enabled ≡ true → get "deletedAt" q ≡ null)
      × IsUnowned set
  ChangesMany past (emit_record_event e) = IsShownEvent s req e
  ChangesMany past c = ⊥

  -- The update was made.
  abbrev pub IsUpdated : Past → Reply → Type 0
  IsUpdated past reply_ =
      (q set : Object) × (result : UpdateResult) × Happened (update_many q set true) result past
      × (reply_ ≡ updated result)
