-- ===== src/ScopeResolver/Find.antt =====
-- scopeResolver.js: `wrapFindById`, `wrapFindByIds`, `wrapAggregation` and `wrapComputedField`.
use davepi.Base.{
  Bool, List, Option, [], if◌then◌else◌, map, none, not, select, some, true, ◌&&◌, ◌||◌,
}
use davepi.Js.{Value, null, bool, arr, obj, Object, get, put, array}
use davepi.Schema.{User, Field, Schema}
use davepi.Acl.{can_read_field, bypass_user_scope_for_list}
use davepi.Fragment.{same_id, matches_role_scope}
use davepi.ScopeResolver.{
  Outcome, ok, failed, Args, Request, resolved, Run, pure, perform, require_user, require_scope,
  ◌>>=◌, ◌>>◌,
}
use davepi.ScopeResolver.Results.{project_result}

-- `ensureProjection(rp, ['userId'])`
abbrev pub with_owner : Args → Args
with_owner args = record args { projection = put "userId" (bool true) args.projection }

-- A record that the caller may see: owned, unless the list bypass applies, and inside the role's filter.
unfoldable pub is_visible : Schema → Option User → Value → Object → Bool
is_visible schema user user_id r =
    (bypass_user_scope_for_list schema user || same_id (get "userId" r) user_id)
    && matches_role_scope r schema user

-- The answer of `findById` is a record, or falsy.
abbrev pub found : Schema → Option User → Value → Option Object → Value
found schema user user_id none = null
found schema user user_id (some r) =
    if is_visible schema user user_id r then project_result schema user (obj r) else null

abbrev pub found_all : Schema → Option User → Value → List Object → Value
found_all schema user user_id rs =
    project_result schema user (arr (array (map obj (select (is_visible schema user user_id) rs))))

-- `wrapFindById`
unfoldable pub wrap_find_by_id : Schema → (Args → Outcome (Option Object)) → Request → Run Value
wrap_find_by_id schema next rp = do
  user_id ← require_user rp.user
  require_scope rp.user "read"
  let args = with_owner rp.args
  result ← perform (resolved args) (next args)
  pure (found schema rp.user user_id result)

-- `wrapFindByIds`; an answer that is falsy is the empty list.
unfoldable pub wrap_find_by_ids : Schema → (Args → Outcome (List Object)) → Request → Run Value
wrap_find_by_ids schema next rp = do
  user_id ← require_user rp.user
  require_scope rp.user "read"
  let args = with_owner rp.args
  results ← perform (resolved args) (next args)
  pure (found_all schema rp.user user_id results)

-- `wrapAggregation`; its runner only reads the database, so its call is no effect.
unfoldable pub wrap_aggregation :
    (Option User → Value → Outcome Value) → Option User → Value → Run Value
wrap_aggregation runner user params = do
  user_id ← require_user user
  require_scope user "read"
  record { outcome = runner user params; effects = [] }

abbrev pub or_null : Outcome Value → Value
or_null (ok v) = v
or_null (failed e) = null

-- `wrapComputedField`; the user stands for the context that the computation is given.
unfoldable pub wrap_computed_field :
    Field → (Value → Option User → Outcome Value) → Value → Option User → Value
wrap_computed_field field compute source user =
    if not (can_read_field field user) then null else or_null (compute source user)
