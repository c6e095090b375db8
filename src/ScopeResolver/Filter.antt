-- ===== src/ScopeResolver/Filter.antt =====
-- scopeResolver.js: `wrapFilter`, for the queries and mutations that take a filter.
use davepi.Base.{Bool, Option, String, if◌then◌else◌, none, some}
use davepi.Js.{Value, undefined, str, obj, Object, empty, prop, put, truthy, to_text}
use davepi.Schema.{User, Schema}
use davepi.Acl.{
  Action, update, filter_writable, bypass_user_scope_for_list, bypass_user_scope_for_delete,
  bypass_user_scope_for_write, get_role_scope_filter, apply_role_scope_filter,
}
use davepi.ScopeResolver.{
  Outcome, Args, Request, resolved, Run, pure, perform, require_user, require_scope,
  refuse_client_write, overlay_stamped, Kind, read, write, delete, ◌>>=◌, ◌>>◌,
}
use davepi.ScopeResolver.Results.{project_result, emit_for_mutation}

abbrev pub required_scope : Kind → String
required_scope read = "read"
required_scope _ = "write"

-- The bypass of the owner's scope that `kind` selects.
unfoldable pub bypass_for : Kind → Schema → Option User → Bool
bypass_for read schema user = bypass_user_scope_for_list schema user
bypass_for delete schema user = bypass_user_scope_for_delete schema user
bypass_for write schema user = bypass_user_scope_for_write schema user

abbrev pub refuse_unless_read : Kind → Option User → Run (Unit {0})
refuse_unless_read read user = pure tt
refuse_unless_read _ user = refuse_client_write user

-- `{ ...(filter || {}), ...(bypass ? {} : { userId }) }`
abbrev pub owned_filter : Bool → Value → Option Object → Object
owned_filter bypass user_id filter =
    let given : Object = elim filter [ none ↦ empty | some q ↦ q ] in
    if bypass then given else put "userId" user_id given

-- The filter before a search is added.
unfoldable pub scoped_filter : Kind → Schema → Option User → Value → Option Object → Object
scoped_filter kind schema user user_id filter =
    apply_role_scope_filter (owned_filter (bypass_for kind schema user) user_id filter)
      (get_role_scope_filter schema user)

-- `{ ...filter, $text: { $search: String(search) } }`
abbrev pub add_search : Value → Object → Object
add_search search filter =
    if truthy search
    then put "$text" (obj (prop "$search" (str (to_text search)) empty)) filter
    else filter

-- The payload is reduced to what the caller may write, and then stamped.
abbrev pub writable_payload : Option Action → Schema → Option User → Object → Object
writable_payload none schema user payload = payload
writable_payload (some action) schema user payload = filter_writable payload schema user action

abbrev pub stamped_payload : Option Action → Schema → Option User → Value → Value → Value
stamped_payload action schema user user_id (obj payload) =
    obj (overlay_stamped user_id (writable_payload action schema user payload))
stamped_payload action schema user user_id payload = payload

abbrev pub emit_filtered : Option Action → Kind → Schema → Option User → Value → Run (Unit {0})
emit_filtered (some update) kind schema user result = emit_for_mutation schema user "updated" result
emit_filtered action delete schema user result = emit_for_mutation schema user "deleted" result
emit_filtered action _ schema user result = pure tt

-- What the wrapped resolver is called with.
unfoldable pub filter_args : Option Action → Kind → Schema → Option User → Value → Args → Args
filter_args action kind schema user user_id args = record args {
  filter = some (add_search args.search (scoped_filter kind schema user user_id args.filter));
  search = if truthy args.search then undefined else args.search;
  payload = stamped_payload action schema user user_id args.payload;
}

module _ (schema : Schema) (next : Args → Outcome Value) where
  -- `wrapFilter`
  unfoldable pub wrap_filter : Option Action → Kind → Request → Run Value
  wrap_filter action kind rp = do
    user_id ← require_user rp.user
    require_scope rp.user (required_scope kind)
    refuse_unless_read kind rp.user
    let args = filter_args action kind schema rp.user user_id rp.args
    result ← perform (resolved args) (next args)
    emit_filtered action kind schema rp.user result
    pure (project_result schema rp.user result)
