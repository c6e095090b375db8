-- ===== src/ScopeResolver/Create.antt =====
-- scopeResolver.js: `wrapCreateOne` and `wrapCreateMany`.
use davepi.Base.{List, Option, [], if◌then◌else◌, map, none, some}
use davepi.Js.{Value, undefined, obj, Object, empty, get, truthy}
use davepi.Schema.{User, Schema}
use davepi.Acl.{create, filter_writable, stamp_tenant_fields}
use davepi.ScopeResolver.{
  Outcome, Args, Request, resolved, Run, pure, perform, require_user, require_scope,
  refuse_client_write, overlay_stamped, run_before_hook, run_after_hook, hook_of, ◌>>=◌, ◌>>◌,
}
use davepi.ScopeResolver.Results.{project_result, emit_for_mutation}

-- `rp.args.record || {}`
abbrev pub payload_object : Value → Object
payload_object (obj o) = o
payload_object _ = empty

-- `{ ...filterWritable(record, schema, user, 'create'), ...stampedValues(userId) }`
abbrev pub stamped_create : Schema → Option User → Value → Object → Object
stamped_create schema user user_id payload =
    overlay_stamped user_id (filter_writable payload schema user create)

-- `stampTenantFields` on whatever a hook returned.
abbrev pub restamp : Option User → Value → Value
restamp user (obj o) = obj (stamp_tenant_fields o user)
restamp user v = v

-- `projected && projected.record`
abbrev pub record_of : Value → Value
record_of (obj o) = get "record" o
record_of v = undefined

unfoldable pub after_create : Schema → Option User → Value → Run (Unit {0})
after_create schema user projected =
    if truthy (record_of projected)
    then run_after_hook "afterCreate" (hook_of (λ h. h.after_create) schema)
        (record { input = record_of projected; current = undefined; user = user })
    else pure tt

abbrev pub payload_list : Option (List Object) → List Object
payload_list none = []
payload_list (some os) = os

module _ (schema : Schema) (next : Args → Outcome Value) where
  -- `wrapCreateOne`
  unfoldable pub wrap_create_one : Request → Run Value
  unfolding after_create
  wrap_create_one rp = do
    user_id ← require_user rp.user
    require_scope rp.user "write"
    refuse_client_write rp.user
    hooked ← run_before_hook "beforeCreate" (hook_of (λ h. h.before_create) schema) (record {
      input = obj (stamped_create schema rp.user user_id (payload_object rp.args.payload));
      current = undefined;
      user = rp.user;
    })
    let args = record rp.args { payload = restamp rp.user hooked }
    result ← perform (resolved args) (next args)
    emit_for_mutation schema rp.user "created" result
    let projected = project_result schema rp.user result
    after_create schema rp.user projected
    pure projected

  -- `wrapCreateMany`
  unfoldable pub wrap_create_many : Request → Run Value
  wrap_create_many rp = do
    user_id ← require_user rp.user
    require_scope rp.user "write"
    refuse_client_write rp.user
    let args = record rp.args {
      payloads = some (map (stamped_create schema rp.user user_id) (payload_list rp.args.payloads));
    }
    result ← perform (resolved args) (next args)
    emit_for_mutation schema rp.user "created" result
    pure (project_result schema rp.user result)
