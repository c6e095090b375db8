-- ===== src/Rest/Update.antt =====
-- schemaLoader.js: `PUT /api/{version}/{path}/:id`.
use davepi.Base.{
  Bool, List, Option, String, [], eqb, false, if◌then◌else◌, is_empty, none, not, some, true, ◌==◌,
  ◌||◌, ◌∷◌,
}
use davepi.Js.{
  Value, Object, undefined, null, bool, num, str, arr, obj, nil, cons, empty, put, no_keys, to_text,
}
use davepi.Schema.{Hook, HookContext}
use davepi.Acl.{update, filter_writable, strip_tenant_fields, bypass_user_scope_for_write}
use davepi.StateMachine.{
  Verdict, Transition, valid, invalid, validate_transition, list_transitions_to_validate,
  state_machine_fields_of,
}
use davepi.Program.{call, ◌>>=◌, ◌>>◌, done, failed}
use davepi.ScopeResolver.{hook_of}
use davepi.Rest.{
  Resource, Request, Handler, Reply, updated, UpdateResult, find_one, find_by_id, update_one,
  enter_state, apply_soft_delete_filter, own_or_any, found_or_404, or_null, project_or_null,
  hook_answer, run_hook, run_after, audit, emit, event_type, of_record, of_transition,
  not_found_error, invalid_transition_error, type_error,
}

-- The query of an update.
unfoldable pub update_query : Resource → Request → Object
update_query s req =
    apply_soft_delete_filter s
      (own_or_any (bypass_user_scope_for_write s.schema (some req.user)) req) req

abbrev pub is_declared : Option Hook → Bool
is_declared none = false
is_declared (some hook) = true

-- `auditEnabled || hasStateMachine || hasUpdateHook`
abbrev pub needs_before : Resource → Bool
needs_before s =
    s.audit_enabled
    || not (is_empty (state_machine_fields_of s.schema))
    || is_declared (hook_of (λ h. h.before_update) s.schema)
    || is_declared (hook_of (λ h. h.after_update) s.schema)

abbrev pub read_before : Resource → Request → Handler (Option Object)
read_before s req = if needs_before s then call (find_one (update_query s req)) else done none

-- The payload after the hook, which needs the record.
abbrev pub before_update : Resource → Request → Option Hook → Option Object → Object → Handler Value
before_update s req none before writable = done (obj writable)
before_update s req (some hook) before writable = do
  current ← found_or_404 s before
  let ctx : HookContext = record {
    input = obj writable;
    current = obj current;
    user = some req.user;
  }
  answer ← call (run_hook "beforeUpdate" ctx)
  hook_answer (obj writable) answer

-- What a hook returned, as the properties to set. A value without keys sets nothing; `null`, a text and
-- an array are no update.
unfoldable pub as_payload : Value → Handler Object
as_payload (obj o) = done o
as_payload (bool b) = done empty
as_payload (num n) = done empty
as_payload (str s) = if s == "" then done empty else failed type_error
as_payload (arr nil) = done empty
as_payload (arr (cons v vs)) = failed type_error
as_payload undefined = failed type_error
as_payload null = failed type_error

-- `transitions.length && !before`
abbrev pub require_record : Resource → List Transition → Option Object → Handler (Unit {0})
require_record s [] before = done tt
require_record s (t ∷ ts) none = failed (not_found_error s.schema.path)
require_record s (t ∷ ts) (some before) = done tt

-- `if (!v.valid) throw new InvalidTransitionError(...)`
abbrev pub accept_or_fail : String → Verdict → Handler (Unit {0}) → Handler (Unit {0})
accept_or_fail name (valid transition) rest = rest
accept_or_fail name (invalid rejection) rest = failed (invalid_transition_error name rejection)

unfoldable pub validate_all : List Transition → Handler (Unit {0})
validate_all [] = done tt
validate_all (t ∷ ts) =
    accept_or_fail t.field.name (validate_transition t.field.name t.machine t.current t.next)
      (validate_all ts)

abbrev pub matched_or_404 : Resource → UpdateResult → Handler UpdateResult
matched_or_404 s result =
    if eqb result.matched 0 then failed (not_found_error s.schema.path) else done result

-- `{ acknowledged: true, matchedCount: 1, modifiedCount: 0 }`
abbrev pub synthetic : Object → Handler UpdateResult
synthetic found = done (record { matched = 1; modified = 0; upserted = 0 })

-- The write, or with nothing to set the check that the record is there.
abbrev pub write_changes : Resource → Request → Object → Handler UpdateResult
write_changes s req set =
    if no_keys set
    then (call (find_one (update_query s req)) >>= (λ answer. found_or_404 s answer >>= synthetic))
    else (call (update_one (update_query s req) set) >>= matched_or_404 s)

abbrev pub read_after : Request → Option Object → Handler (Option Object)
read_after req none = done none
read_after req (some before) = call (find_by_id req.id)

abbrev pub audit_update : Resource → Request → Option Object → Option Object → Handler (Unit {0})
audit_update s req none after = done tt
audit_update s req (some before) after =
    audit s
      (record { record_id = req.id; action = "update"; before = obj before; after = or_null after })

-- `{ ...(record || {}), [name]: v }`
abbrev pub with_state : Option Object → String → Value → Object
with_state none name v = put name v empty
with_state (some o) name v = put name v o

unfoldable pub follow_transitions :
    Resource → Request → Option Object → Option Object → List Transition → Handler (Unit {0})
follow_transitions s req before after [] = done tt
follow_transitions s req before after (t ∷ ts) = do
  audit s (record {
    record_id = req.id;
    action = "transition";
    before = obj (with_state before t.field.name t.current);
    after = obj (with_state after t.field.name t.next);
  })
  emit (
      of_transition t.field.name req.user.user_id (str (to_text req.id)) t.current t.next
        (project_or_null s req after) (project_or_null s req before) (project_or_null s req after))
  if s.has_on_enter t.field.name t.next
      then call (enter_state t.field.name (or_null after) t.current t.next)
      else done tt
  follow_transitions s req before after ts

-- What is told of an update.
unfoldable pub tell_update :
    Resource
    → Request
    → Option Object
    → Option Object
    → List Transition
    → UpdateResult
    → Handler Reply
tell_update s req before after transitions result = do
  audit_update s req before after
  emit (
      of_record (event_type s "updated") req.user.user_id (str (to_text req.id))
        (project_or_null s req after) (project_or_null s req before) (project_or_null s req after))
  run_after "afterUpdate" (hook_of (λ h. h.after_update) s.schema) (record {
    input = project_or_null s req after;
    current = or_null before;
    user = some req.user;
  })
  follow_transitions s req before after transitions
  done (updated result)

-- What follows the check of the transitions.
unfoldable pub apply_update :
    Resource → Request → Option Object → Object → List Transition → Handler Reply
apply_update s req before set transitions = do
  result ← write_changes s req set
  after ← read_after req before
  tell_update s req before after transitions result

unfoldable pub put_by_id : Resource → Request → Handler Reply
put_by_id s req = do
  before ← read_before s req
  hooked ←
      before_update s req (hook_of (λ h. h.before_update) s.schema) before
        (filter_writable req.body s.schema (some req.user) update)
  payload ← as_payload hooked
  let set = strip_tenant_fields payload
  let transitions = list_transitions_to_validate set before s.schema
  require_record s transitions before
  validate_all transitions
  apply_update s req before set transitions
