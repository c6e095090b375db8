-- ===== src/Rest/Delete.antt =====
-- schemaLoader.js: `DELETE /api/{version}/{path}/:id` and `POST /api/{version}/{path}/:id/restore`.
use davepi.Base.{List, Option, String, [], eqb, false, if◌then◌else◌, none, some, true, ◌∷◌}
use davepi.Js.{Value, Object, undefined, null, obj, str, prop, empty, get, put, truthy, to_text}
use davepi.Schema.{Hook}
use davepi.Acl.{bypass_user_scope_for_delete}
use davepi.Program.{call, ◌>>=◌, ◌>>◌, done, failed}
use davepi.ScopeResolver.{hook_of}
use davepi.Rest.{
  Resource, Request, Handler, Reply, deleted, no_content, find_one, update_one, delete_one,
  remove_blob, own_or_any, found_or_404, or_null, project_or_null, run_before, run_after, audit,
  emit, event_type, of_record, not_found_error,
}

-- The query of a delete and of a restore.
abbrev pub base_query : Resource → Request → Object
base_query s req = own_or_any (bypass_user_scope_for_delete s.schema (some req.user)) req

-- `{ _id: existing._id }`
abbrev pub id_query : Object → Object
id_query existing = prop "_id" (get "_id" existing) empty

-- `now` is the time of the request, as the database stores it.
module _ (now : Value) where
  unfoldable pub soft_delete : Resource → Request → Handler Reply
  soft_delete s req = do
    answer ← call (find_one (put "deletedAt" null (base_query s req)))
    existing ← found_or_404 s answer
    ignored ←
        run_before "beforeDelete" (hook_of (λ h. h.before_delete) s.schema)
          (record { input = null; current = obj existing; user = some req.user })
    result ← call (update_one (id_query existing) (prop "deletedAt" now empty))
    let tombstoned = put "deletedAt" now existing
    audit s (record {
      record_id = get "_id" existing;
      action = "delete";
      before = obj existing;
      after = obj tombstoned;
    })
    emit (
        of_record (event_type s "deleted") req.user.user_id (str (to_text req.id))
          (project_or_null s req (some tombstoned)) (project_or_null s req (some existing))
          (project_or_null s req (some tombstoned)))
    run_after "afterDelete" (hook_of (λ h. h.after_delete) s.schema) (record {
      input = project_or_null s req (some tombstoned);
      current = undefined;
      user = some req.user;
    })
    done (deleted 1 true)

-- A declared hook that runs before a hard delete asks for the record.
abbrev pub before_hard_delete : Resource → Request → Option Hook → Option Object → Handler Value
before_hard_delete s req none existing = done null
before_hard_delete s req (some hook) existing = do
  current ← found_or_404 s existing
  run_before "beforeDelete" (some hook)
      (record { input = null; current = obj current; user = some req.user })

-- The key of a file field's metadata, where it is set.
abbrev pub blob_key : Value → Value
blob_key (obj meta) = get "key" meta
blob_key v = undefined

unfoldable pub remove_blobs : List String → Option Object → Handler (Unit {0})
remove_blobs names none = done tt
remove_blobs [] (some existing) = done tt
remove_blobs (name ∷ names) (some existing) = do
  let key = blob_key (get name existing)
  if truthy key then call (remove_blob key) else done tt
  remove_blobs names (some existing)

-- `existing && existing._id`
abbrev pub id_or_null : Option Object → Value
id_or_null none = null
id_or_null (some existing) = get "_id" existing

unfoldable pub hard_delete : Resource → Request → Handler Reply
hard_delete s req = do
  existing ← call (find_one (base_query s req))
  ignored ← before_hard_delete s req (hook_of (λ h. h.before_delete) s.schema) existing
  deleted_count ← call (delete_one (base_query s req))
  if eqb deleted_count 0 then failed (not_found_error s.schema.path) else done tt
  remove_blobs s.file_fields existing
  audit s (record {
    record_id = id_or_null existing;
    action = "delete";
    before = or_null existing;
    after = null;
  })
  emit (
      of_record (event_type s "deleted") req.user.user_id (str (to_text req.id))
        (project_or_null s req existing) (project_or_null s req existing) null)
  run_after "afterDelete" (hook_of (λ h. h.after_delete) s.schema)
      (record { input = project_or_null s req existing; current = undefined; user = some req.user })
  done (deleted deleted_count false)

unfoldable pub delete_by_id : Value → Resource → Request → Handler Reply
delete_by_id now s req = if s.soft_delete_enabled then soft_delete now s req else hard_delete s req

unfoldable pub restore : Resource → Request → Handler Reply
restore s req = do
  answer ← call (find_one (put "deletedAt" (obj (prop "$ne" null empty)) (base_query s req)))
  existing ← found_or_404 s answer
  result ← call (update_one (id_query existing) (prop "deletedAt" null empty))
  audit s (record {
    record_id = get "_id" existing;
    action = "restore";
    before = obj existing;
    after = obj (put "deletedAt" null existing);
  })
  done no_content
