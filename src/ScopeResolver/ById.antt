-- ===== src/ScopeResolver/ById.antt =====
-- scopeResolver.js: `wrapByIdMutation` and `wrapStateTransition`, which look the record up under the
-- caller's ownership before they touch it.
use davepi.Base.{Bool, Option, String, false, if◌then◌else◌, none, some, true, ◌&&◌, ◌||◌}
use davepi.Js.{Value, null, obj, Object, empty, prop, truthy}
use davepi.Schema.{User, Hook, Schema}
use davepi.Acl.{Action, update, strip_tenant_fields, bypass_user_scope_for_write}
use davepi.ScopeResolver.{
  Outcome, ok, failed, forbidden_error, Args, Request, looked_up, resolved, transitioned, Run, pure,
  perform, ◌>>=◌, require_user, require_scope, refuse_client_write, overlay_stamped,
  run_before_hook, run_after_hook, hook_of, Kind, write, delete, ◌>>◌,
}
use davepi.ScopeResolver.Results.{project_result, emit_for_mutation}
use davepi.ScopeResolver.Filter.{bypass_for, writable_payload}
use davepi.ScopeResolver.Create.{record_of}

-- `{ _id }` under the bypass, else `{ _id, userId }`
abbrev pub ownership_query : Bool → Value → Value → Object
ownership_query bypass id user_id =
    prop "_id" id (if bypass then empty else prop "userId" user_id empty)

-- What a record's lookup gives the rest of the mutation.
abbrev pub or_not_found : Option Object → Outcome Object
or_not_found none = failed (forbidden_error "Record not found")
or_not_found (some current) = ok current

-- The name and the hook that run before and after; an update that deletes runs none before.
abbrev pub before_hook : Option Action → Kind → Schema → String × Option Hook
before_hook (some update) delete schema = ("", none)
before_hook (some update) _ schema = ("beforeUpdate", hook_of (λ h. h.before_update) schema)
before_hook _ delete schema = ("beforeDelete", hook_of (λ h. h.before_delete) schema)
before_hook _ _ schema = ("", none)

abbrev pub after_hook : Option Action → Kind → Schema → String × Option Hook
after_hook (some update) _ schema = ("afterUpdate", hook_of (λ h. h.after_update) schema)
after_hook _ delete schema = ("afterDelete", hook_of (λ h. h.after_delete) schema)
after_hook _ _ schema = ("", none)

abbrev is_declared : Option Hook → Bool
is_declared none = false
is_declared (some hook) = true

-- The hooks see the record that was looked up only where one of them is declared.
abbrev pub current_for : Option Action → Kind → Schema → Object → Value
current_for action kind schema found =
    if is_declared (before_hook action kind schema).1
      || is_declared (after_hook action kind schema).1
    then obj found
    else null

-- `stripTenantFields` on whatever a hook returned.
abbrev pub strip : Value → Value
strip (obj o) = obj (strip_tenant_fields o)
strip v = v

-- Without a payload, only the hook of a delete runs, and its answer is dropped.
unfoldable pub skip_payload :
    Option Action → Kind → Schema → Option User → Value → Value → Run Value
skip_payload action delete schema user current payload =
    run_before_hook (before_hook action delete schema).0 (before_hook action delete schema).1
      (record { input = null; current = current; user = user })
    >>= λ _. pure payload
skip_payload action _ schema user current payload = pure payload

-- The payload that reaches the database, after the hook.
unfoldable pub prepare_payload :
    Option Action → Kind → Schema → Option User → Value → Value → Value → Run Value
prepare_payload action kind schema user user_id current (obj payload) = do
  hooked ←
      run_before_hook (before_hook action kind schema).0 (before_hook action kind schema).1
        (record {
          input = obj (overlay_stamped user_id (writable_payload action schema user payload));
          current = current;
          user = user;
        })
  pure (strip hooked)
prepare_payload action kind schema user user_id current payload =
    skip_payload action kind schema user current payload

abbrev pub emit_by_id : Option Action → Kind → Schema → Option User → Value → Run (Unit {0})
emit_by_id (some update) kind schema user result = emit_for_mutation schema user "updated" result
emit_by_id action delete schema user result = emit_for_mutation schema user "deleted" result
emit_by_id action _ schema user result = pure tt

-- `projected && projected.record ? projected.record : null`
abbrev pub record_out : Value → Value
record_out projected = if truthy (record_of projected) then record_of projected else null

module _ (find_one : Object → Option Object) (schema : Schema) (next : Args → Outcome Value) where
  -- `wrapByIdMutation`; `find_one` is `Model.findOne`.
  unfoldable pub wrap_by_id_mutation : Option Action → Kind → Request → Run Value
  wrap_by_id_mutation action kind rp = do
    user_id ← require_user rp.user
    require_scope rp.user "write"
    refuse_client_write rp.user
    let query = ownership_query (bypass_for kind schema rp.user) rp.args.id user_id
    found ← perform (looked_up query) (or_not_found (find_one query))
    let current = current_for action kind schema found
    payload ← prepare_payload action kind schema rp.user user_id current rp.args.payload
    let args = record rp.args { payload = payload }
    result ← perform (resolved args) (next args)
    emit_by_id action kind schema rp.user result
    let projected = project_result schema rp.user result
    run_after_hook (after_hook action kind schema).0 (after_hook action kind schema).1
        (record { input = record_out projected; current = current; user = rp.user })
    pure projected

abbrev pub is_write : Kind → Bool
is_write write = true
is_write _ = false

module _ (find_one : Object → Option Object) (schema : Schema)
    (runner : Option User → Object → Value → Outcome Value) where
  -- `wrapStateTransition`, of the record's id and the state to go to.
  unfoldable pub wrap_state_transition : Kind → Option User → Value → Value → Run Value
  wrap_state_transition kind user id to = do
    user_id ← require_user user
    require_scope user "write"
    refuse_client_write user
    let bypass = is_write kind && bypass_user_scope_for_write schema user
    let query = ownership_query bypass id user_id
    before ← perform (looked_up query) (or_not_found (find_one query))
    result ← perform (transitioned before to) (runner user before to)
    pure (project_result schema user result)
