-- ===== src/Rest.antt =====
-- utils/schemaLoader.js, `buildRestRouter`: the handlers of a resource's routes, as programs over the
-- database, the hooks, the audit log, the event bus and the file storage. A command that throws, where
-- the handler does not catch it, ends the request at that point. The properties that
-- `decorateFileUrls`, `applyIncludes` and `applyComputed` add to records are answers of commands.
pub mod Numbers
pub mod Pages
pub mod Create
pub mod Read
pub mod Delete
pub mod Update
pub mod Bulk
pub mod Steps
pub mod Confined
pub mod Created
pub mod Targets
pub mod Changed
pub mod Deleted
pub mod Paging
pub mod Many
pub mod History
pub mod Files
pub mod Uploaded
use Prim.Native.String
use davepi.Base.{Bool, List, Option, String, if◌then◌else◌, none, not, some, ℕ, ◌||◌}
use davepi.Js.{
  Value, Object, undefined, null, bool, num, str, arr, obj, get, put, prop, empty, strict_eq, array,
  to_text, no_keys,
}
use davepi.Schema.{User, Schema, Hook, Hooks, HookContext, HookResult, threw, returned}
use davepi.StateMachine.{Rejection}
use davepi.Acl.{project_by_acl}
use davepi.Program.{Program, done, failed, ask, call, ◌>>=◌, ◌>>◌}
use davepi.ScopeResolver.{hook_of}

-- utils/errors.js, as the handlers throw them; `hook_error` is what a hook throws, `save_error` what
-- `record.save` throws, and `type_error` a payload that is no object.
pub data Error : Type 0 where
  not_found_error : (resource : String) → Error
  invalid_transition_error : (field : String) → Rejection → Error
  validation_error : String → Error
  save_error : String → Error
  hook_error : String → Error
  type_error : Error

-- `req`, after the middlewares: the caller, the `:id` of the path, the query string and the body.
pub record Request : Type 0 where
  pub user : User
  pub id : Value
  pub query : Object
  pub body : Object

-- What the router is built from: the schema, its options, and whether a field has an `onEnter` hook for
-- a state. `parse_query` is `qs.parse`, and `page_size` is `parseInt(process.env.PAGE_SIZE)`.
pub record Resource : Type 0 where
  pub schema : Schema
  pub soft_delete_enabled : Bool
  pub audit_enabled : Bool
  pub has_searchable : Bool
  pub file_fields : List String
  pub page_size : ℕ
  pub parse_query : Object → Object
  pub has_on_enter : String → Value → Bool

pub record AuditEntry : Type 0 where
  pub record_id : Value
  pub action : String
  pub before : Value
  pub after : Value

-- What `emitRecordEvent` is given.
pub data Event : Type 0 where
  of_record : (type : String) (user_id record_id shown before after : Value) → Event
  of_transition : (field : String) (user_id record_id from to shown before after : Value) → Event
  of_many : (type : String) (user_id : Value) (filter : Object) (num_affected : ℕ) → Event

-- `matchedCount`, `modifiedCount` and `upsertedCount`
pub record UpdateResult : Type 0 where
  pub matched : ℕ
  pub modified : ℕ
  pub upserted : ℕ

-- An integer: `pos n` is n, and `negsuc n` is -(n + 1).
pub data ℤ : Type 0 where
  pos negsuc : ℕ → ℤ

-- A page of a find: the query, the sort, whether the text score is projected, the skip and the limit.
pub record PageQuery : Type 0 where
  pub filter : Object
  pub sort : Object
  pub by_score : Bool
  pub skip : ℤ
  pub limit : ℕ

pub data Command : Type 0 where
  find_one : (query : Object) → Command
  find_by_id : (id : Value) → Command
  find_page : PageQuery → Command
  count_documents : (query : Object) → Command
  create_record : (document : Value) → Command
  update_one : (query set : Object) → Command
  update_many : (query set : Object) (upsert : Bool) → Command
  delete_one : (query : Object) → Command
  find_history : (query : Object) → (skip : ℤ) → (limit : ℕ) → Command
  count_history : (query : Object) → Command
  run_hook : (name : String) → HookContext → Command
  enter_state : (field : String) (fresh from to : Value) → Command
  record_audit : AuditEntry → Command
  emit_record_event : Event → Command
  decorate_file_urls : List (Option Object) → Command
  apply_includes : (included : Value) → List (Option Object) → Command
  apply_computed : List (Option Object) → Command
  remove_blob : (key : Value) → Command
  random_uuid : Command
  put_blob : (key : String) → Command
  save_record : Object → Command
  signed_url : (key : Value) → Command

-- What the database, the storage and the rest answer. `none` of a save is success, `some` what it throws.
abbrev pub Answer : Command → Type 0
Answer (find_one query) = Option Object
Answer (find_by_id id) = Option Object
Answer (find_page q) = List (Option Object)
Answer (count_documents query) = ℕ
Answer (create_record document) = Object
Answer (update_one query set) = UpdateResult
Answer (update_many query set upsert) = UpdateResult
Answer (delete_one query) = ℕ
Answer (find_history query skip limit) = List Object
Answer (count_history query) = ℕ
Answer (run_hook name ctx) = HookResult
Answer (enter_state field fresh from to) = Unit {0}
Answer (record_audit entry) = Unit {0}
Answer (emit_record_event e) = Unit {0}
Answer (decorate_file_urls records) = List (Option Object)
Answer (apply_includes included records) = List (Option Object)
Answer (apply_computed records) = List (Option Object)
Answer (remove_blob key) = Unit {0}
Answer random_uuid = String
Answer (put_blob key) = Unit {0}
Answer (save_record o) = Option String
Answer (signed_url key) = String

abbrev pub Handler : Type 0 → Type 0
Handler A = Program Command Answer Error A

-- `applySoftDeleteFilter`
unfoldable pub apply_soft_delete_filter : Resource → Object → Request → Object
apply_soft_delete_filter s q req =
    if not s.soft_delete_enabled || strict_eq (get "__includeDeleted" req.query) (str "true")
    then q
    else put "deletedAt" null q

-- `{ ...query, deletedAt: null }` where soft deletion is enabled
abbrev pub without_tombstones : Resource → Object → Object
without_tombstones s q = if s.soft_delete_enabled then put "deletedAt" null q else q

-- `{ _id }` under a bypass, else `{ userId, _id }`
abbrev pub own_or_any : Bool → Request → Object
own_or_any bypass req =
    if bypass
    then prop "_id" req.id empty
    else prop "userId" req.user.user_id (prop "_id" req.id empty)

-- A record that was read, or `null`.
abbrev pub or_null : Option Object → Value
or_null none = null
or_null (some o) = obj o

-- `record ? projectByAcl(record, s, req.user) : null`
abbrev pub project_or_null : Resource → Request → Option Object → Value
project_or_null s req record_ = or_null (project_by_acl record_ s.schema (some req.user))

-- `if (!record) throw new NotFoundError(path)`
unfoldable pub found_or_404 : Resource → Option Object → Handler Object
found_or_404 s none = failed (not_found_error s.schema.path)
found_or_404 s (some o) = done o

-- utils/hooks.js, `runBeforeHook`: what the hook returns replaces the input, unless it is undefined.
abbrev pub hook_answer : Value → HookResult → Handler Value
hook_answer input (threw message) = failed (hook_error message)
hook_answer input (returned undefined) = done input
hook_answer input (returned v) = done v

abbrev pub run_before : String → Option Hook → HookContext → Handler Value
run_before name none ctx = done ctx.input
run_before name (some hook) ctx = ask (run_hook name ctx) (hook_answer ctx.input)

-- `runAfterHook`: what the hook throws is logged and dropped.
abbrev pub run_after : String → Option Hook → HookContext → Handler (Unit {0})
run_after name none ctx = done tt
run_after name (some hook) ctx = ask (run_hook name ctx) (λ _. done tt)

-- `audit`
abbrev pub audit : Resource → AuditEntry → Handler (Unit {0})
audit s entry = if s.audit_enabled then call (record_audit entry) else done tt

abbrev pub emit : Event → Handler (Unit {0})
emit e = call (emit_record_event e)

-- `${path}.${action}`
abbrev pub event_type : Resource → String → String
event_type s action = String.◌++◌ (String.◌++◌ s.schema.path ".") action

-- A page of results, as a list and a history answer with it.
pub record Page : Type 0 where
  pub results : List Value
  pub total_results : ℕ
  pub page : ℤ
  pub per_page : ℕ
  pub total_pages : ℕ
  pub next_page : Option ℤ
  pub prev_page : Option ℤ

-- `res.status(status).json(body)`, with a body of its own for each kind of answer; 204 has none.
pub data Reply : Type 0 where
  reply : (status : ℕ) (body : Value) → Reply
  page_reply : Page → Reply
  updated : UpdateResult → Reply
  deleted : (deleted_count : ℕ) (soft_deleted : Bool) → Reply
  no_content : Reply
  redirect : (url : String) → Reply
