-- ===== src/Acl.antt =====
-- utils/acl.js: roles, the fields that a caller may read or write, the stamping of the owner, and the
-- mandatory filters of a role.
pub mod Read
pub mod Write
pub mod Owner
use davepi.Base.{
  Bool, List, Option, String, [], false, if◌then◌else◌, includes, is_empty, map, none, not, some,
  true, ◌&&◌, ◌++◌, ◌==◌, ◌||◌, ◌∷◌,
}
use davepi.Js.{
  Value, undefined, arr, obj, Object, empty, prop, get, put, delete, no_keys, truthy, items, array,
}
use davepi.Schema.{User, Field, FieldAcl, SchemaAcl, Schema}

overlap : List String → List String → Bool
overlap [] roles = false
overlap (r ∷ rs) roles = includes roles r || overlap rs roles

-- `hasOverlap`; `none` is a value that is no array.
unfoldable pub has_overlap : Option (List String) → Option (List String) → Bool
unfolding overlap
has_overlap (some a) (some b) = overlap a b
has_overlap _ _ = false

-- `userRoles`
unfoldable pub user_roles : Option User → List String
user_roles none = []
user_roles (some user) = elim user.roles [
  | none ↦ "user" ∷ []
  | some roles ↦ if is_empty roles then "user" ∷ [] else roles
]

-- `allowed && allowed.length && hasOverlap(allowed, roles)`
unfoldable pub grants : Option (List String) → List String → Bool
grants none roles = false
grants (some allowed) roles = not (is_empty allowed) && has_overlap (some allowed) (some roles)

-- `allowed && allowed.length && !hasOverlap(allowed, roles)`
unfoldable pub refuses : Option (List String) → List String → Bool
refuses none roles = false
refuses (some allowed) roles =
    not (is_empty allowed) && not (has_overlap (some allowed) (some roles))

-- `f.acl && f.acl[slot]`
abbrev pub slot_of : (FieldAcl → Option (List String)) → Option FieldAcl → Option (List String)
slot_of slot none = none
slot_of slot (some acl) = slot acl

-- The loop of `projectByAcl`.
unfoldable pub drop_unreadable : List Field → List String → Object → Object
drop_unreadable [] roles out = out
drop_unreadable (f ∷ fs) roles out =
    drop_unreadable fs roles
      (if refuses (slot_of (λ a. a.read) f.acl) roles then delete f.name out else out)

-- `projectByAcl`; a falsy record is `none`.
unfoldable pub project_by_acl : Option Object → Schema → Option User → Option Object
project_by_acl none schema user = none
project_by_acl (some record_) schema user = elim schema.fields [
  | none ↦ some record_
  | some fields ↦ some (drop_unreadable fields (user_roles user) record_)
]

-- `projectListByAcl`
unfoldable pub project_list_by_acl :
    List (Option Object) → Schema → Option User → List (Option Object)
project_list_by_acl records schema user = map (λ r. project_by_acl r schema user) records

-- `PROTECTED_WRITE_FIELDS`
abbrev pub protected_write_fields : List String
protected_write_fields = "userId" ∷ "accountId" ∷ []

pub data Action : Type 0 where
  create update : Action

abbrev pub action_slot : Action → FieldAcl → Option (List String)
action_slot create acl = acl.create
action_slot update acl = acl.update

-- `new Map(schema.fields.map((f) => [f.name, f])).get(k)`: of two fields with one name the last counts.
unfoldable pub field_by_name : List Field → String → Option Field
field_by_name [] k = none
field_by_name (f ∷ fs) k = elim (field_by_name fs k) [
  | some g ↦ some g
  | none ↦ if f.name == k then some f else none
]

-- Whether the loop of `filterWritable` skips a property because of the field of its name.
unfoldable pub field_skipped : Option Field → List String → Action → Bool
field_skipped none roles action = false
field_skipped (some f) roles action =
    f.is_file || f.is_computed || refuses (slot_of (action_slot action) f.acl) roles

unfoldable pub skipped : List Field → List String → Action → String → Bool
skipped fields roles action k =
    includes protected_write_fields k || field_skipped (field_by_name fields k) roles action

-- The loop of `filterWritable`.
unfoldable pub keep_writable : List Field → List String → Action → Object → Object → Object
keep_writable fields roles action empty out = out
keep_writable fields roles action (prop k v body) out =
    keep_writable fields roles action body
      (if skipped fields roles action k then out else put k v out)

-- `filterWritable`, for a body that is there.
unfoldable pub filter_writable : Object → Schema → Option User → Action → Object
filter_writable body schema user action = elim schema.fields [
  | none ↦ body
  | some fields ↦ keep_writable fields (user_roles user) action body empty
]

-- `user && user.user_id`
abbrev pub id_of : Option User → Value
id_of none = undefined
id_of (some user) = user.user_id

-- `stampTenantFields`, for a target that is an object.
unfoldable pub stamp_tenant_fields : Object → Option User → Object
stamp_tenant_fields target user =
    if truthy (id_of user)
    then put "accountId" (id_of user) (put "userId" (id_of user) target)
    else target

delete_all : List String → Object → Object
delete_all [] target = target
delete_all (k ∷ ks) target = delete_all ks (delete k target)

-- `stripTenantFields`
unfoldable pub strip_tenant_fields : Object → Object
unfolding delete_all
strip_tenant_fields target = delete_all protected_write_fields target

abbrev pub schema_slot : (SchemaAcl → Option (List String)) → Schema → Option (List String)
schema_slot slot schema = elim schema.acl [ none ↦ none | some acl ↦ slot acl ]

-- `bypassUserScopeForList`, `bypassUserScopeForDelete`, `bypassUserScopeForWrite`
unfoldable pub bypass_user_scope_for_list : Schema → Option User → Bool
bypass_user_scope_for_list schema user = grants (schema_slot (λ a. a.list) schema) (user_roles user)

unfoldable pub bypass_user_scope_for_delete : Schema → Option User → Bool
bypass_user_scope_for_delete schema user =
    grants (schema_slot (λ a. a.delete) schema) (user_roles user)

unfoldable pub bypass_user_scope_for_write : Schema → Option User → Bool
bypass_user_scope_for_write schema user =
    grants (schema_slot (λ a. a.write) schema) (user_roles user)

-- The filter that `scope` declares for a role; `none` if there is none or it is falsy.
unfoldable pub role_filter : List (String × Option Object) → String → Option Object
role_filter [] role = none
role_filter ((r, filter) ∷ scope) role = if r == role then filter else role_filter scope role

-- The loop of `getRoleScopeFilter`.
unfoldable pub matched_filters : List (String × Option Object) → List String → List Object
matched_filters scope [] = []
matched_filters scope (r ∷ rs) = elim (role_filter scope r) [
  | some filter ↦ filter ∷ matched_filters scope rs
  | none ↦ matched_filters scope rs
]

-- `{ $and: filters }`
abbrev pub and_envelope : List Object → Object
and_envelope filters = prop "$and" (arr (array (map obj filters))) empty

-- One filter stands for itself, more stand in an envelope.
unfoldable pub join_filters : List Object → Option Object
join_filters [] = none
join_filters (f ∷ []) = some f
join_filters (f ∷ g ∷ fs) = some (and_envelope (f ∷ g ∷ fs))

-- `getRoleScopeFilter`
unfoldable pub get_role_scope_filter : Schema → Option User → Option Object
get_role_scope_filter schema user = elim schema.acl [
  | none ↦ none
  | some acl ↦ elim acl.scope [
    | none ↦ none
    | some scope ↦ join_filters (matched_filters scope (user_roles user))
  ]
]

-- `query.$and` with the filter appended, or both under a fresh `$and`.
unfoldable pub merge_filter : Object → Value → Object → Object
merge_filter query (arr vs) filter = put "$and" (arr (array (items vs ++ obj filter ∷ []))) query
merge_filter query _ filter = and_envelope (query ∷ filter ∷ [])

-- `applyRoleScopeFilter`, for a query that is there.
unfoldable pub apply_role_scope_filter : Object → Option Object → Object
apply_role_scope_filter query none = query
apply_role_scope_filter query (some filter) =
    if no_keys query then filter else merge_filter query (get "$and" query) filter

-- `canReadField`
unfoldable pub can_read_field : Field → Option User → Bool
can_read_field field user = elim (slot_of (λ a. a.read) field.acl) [
  | none ↦ true
  | some allowed ↦ is_empty allowed || has_overlap (some allowed) (some (user_roles user))
]
