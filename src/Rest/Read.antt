-- ===== src/Rest/Read.antt =====
-- schemaLoader.js: `GET /api/{version}/{path}`, `GET /api/{version}/{path}/:id` and
-- `GET /api/{version}/{path}/:id/history`.
use Prim.Native.Char.{code}
use davepi.Base.{
  Bool, List, String, [], eqb, false, if◌then◌else◌, includes, map, none, some, some_of, true, ◌&&◌,
  ◌==◌, ◌∷◌,
}
use davepi.Js.{Value, Object, undefined, str, obj, prop, empty, get, put, truthy}
use davepi.Schema.{Field}
use davepi.Acl.{
  field_by_name, user_roles, slot_of, bypass_user_scope_for_list, get_role_scope_filter,
  apply_role_scope_filter, project_list_by_acl,
}
use davepi.StateMachine.{attach_available_transitions}
use davepi.Program.{call, ◌>>=◌, done, failed}
use davepi.ScopeResolver.{read}
use davepi.ScopeResolver.Filter.{scoped_filter, add_search}
use davepi.Rest.{
  Resource, Request, Handler, Reply, reply, page_reply, find_one, find_page, count_documents,
  find_history, count_history, decorate_file_urls, apply_includes, apply_computed,
  apply_soft_delete_filter, own_or_any, found_or_404, or_null, project_or_null, type_error,
}
use davepi.Rest.Numbers.{page_number}
use davepi.Rest.Pages.{skip_of, page_of}
use davepi.Rest.Create.{single}

-- `key.startsWith('__')`
unfoldable is_reserved : String → Bool
is_reserved (String.◌∷◌ a (String.◌∷◌ b s)) = eqb (code a) b'_' && eqb (code b) b'_'
is_reserved _ = false

-- The query string without the parameters that begin with `__`.
unfoldable pub drop_reserved : Object → Object
unfolding is_reserved
drop_reserved empty = empty
drop_reserved (prop k v o) = if is_reserved k then drop_reserved o else prop k v (drop_reserved o)

-- The text before the first colon, and the text between it and the next one.
unfoldable before_colon : String → String
before_colon String.[] = ""
before_colon (String.◌∷◌ c s) = if eqb (code c) b':' then "" else String.◌∷◌ c (before_colon s)

unfoldable direction : String → Value
unfolding before_colon
direction String.[] = undefined
direction (String.◌∷◌ c s) = if eqb (code c) b':' then str (before_colon s) else direction s

-- The sort, and whether the text score is projected; a sort that is no text throws.
unfoldable pub sort_of : Resource → Value → Value → Handler (Object × Bool)
unfolding before_colon direction
sort_of s q (str sort) =
    if sort == ""
    then done (empty, false)
    else if before_colon sort == "score" && truthy q && s.has_searchable
    then done (prop "score" (obj (prop "$meta" (str "textScore") empty)) empty, true)
    else if before_colon sort == "score"
    then done (empty, false)
    else done (prop (before_colon sort) (direction sort) empty, false)
sort_of s q sort = if truthy sort then failed type_error else done (empty, false)

-- `q && hasSearchable`, as the search that is added
abbrev pub search_of : Resource → Request → Value
search_of s req = if s.has_searchable then get "__q" req.query else undefined

-- The caller's own filter, the owner unless the list bypass applies, and the filter of the caller's roles.
unfoldable pub list_filter : Resource → Request → Object
list_filter s req =
    scoped_filter read s.schema (some req.user) req.user.user_id
      (some (s.parse_query (drop_reserved req.query)))

unfoldable pub list_query : Resource → Request → Object
list_query s req = apply_soft_delete_filter s (add_search (search_of s req) (list_filter s req)) req

unfoldable pub get_list : Resource → Request → Handler Reply
get_list s req = do
  let page = page_number (get "__page" req.query)
  sort ← sort_of s (get "__q" req.query) (get "__sort" req.query)
  let query = list_query s req
  list ← call (
      find_page (record {
        filter = query;
        sort = sort.0;
        by_score = sort.1;
        skip = skip_of page s.page_size;
        limit = s.page_size;
      }))
  count ← call (count_documents query)
  decorated ← call (decorate_file_urls list)
  included ← call (apply_includes (get "__include" req.query) decorated)
  computed ← call (apply_computed included)
  let attached = attach_available_transitions computed s.schema (some req.user)
  let shown = map or_null (project_list_by_acl attached s.schema (some req.user))
  done (page_reply (page_of shown count page s.page_size))

-- The id under the caller's ownership unless the list bypass applies, and the filter of the caller's roles.
unfoldable pub record_filter : Resource → Request → Object
record_filter s req =
    apply_role_scope_filter (own_or_any (bypass_user_scope_for_list s.schema (some req.user)) req)
      (get_role_scope_filter s.schema (some req.user))

unfoldable pub get_by_id : Resource → Request → Handler Reply
get_by_id s req = do
  answer ← call (find_one (apply_soft_delete_filter s (record_filter s req) req))
  found ← found_or_404 s answer
  decorated ← call (decorate_file_urls (some found ∷ []))
  included ← call (apply_includes (get "__include" req.query) decorated)
  computed ← call (apply_computed included)
  let attached = attach_available_transitions computed s.schema (some req.user)
  done (reply 200 (project_or_null s req (single attached)))

-- `allowedDiffKey`
unfoldable pub allowed_diff_key : List Field → List String → String → Bool
allowed_diff_key fields roles k = elim (field_by_name fields k) [
  | none ↦ true
  | some f ↦ elim (slot_of (λ a. a.read) f.acl) [
    | none ↦ true
    | some allowed ↦ some_of (includes roles) allowed
  ]
]

-- The entries of a diff whose keys are allowed.
unfoldable pub keep_allowed : List Field → List String → Object → Object
keep_allowed fields roles empty = empty
keep_allowed fields roles (prop k v o) =
    if allowed_diff_key fields roles k
    then prop k v (keep_allowed fields roles o)
    else keep_allowed fields roles o

-- `s.fields || []`
abbrev pub fields_of : Resource → List Field
fields_of s = elim s.schema.fields [ none ↦ [] | some fields ↦ fields ]

-- A snapshot of an audit entry; a falsy one stays.
abbrev pub project_snapshot : Resource → Request → Value → Value
project_snapshot s req (obj o) = project_or_null s req (some o)
project_snapshot s req v = v

abbrev pub project_diff : Resource → Request → Value → Value
project_diff s req (obj o) = obj (keep_allowed (fields_of s) (user_roles (some req.user)) o)
project_diff s req v = v

-- An entry of the history, as it is shown.
unfoldable pub project_entry : Resource → Request → Object → Value
project_entry s req entry = obj (
    put "diff" (project_diff s req (get "diff" entry)) (
      put "after" (project_snapshot s req (get "after" entry))
        (put "before" (project_snapshot s req (get "before" entry)) entry)))

-- `{ resource: s.path, recordId: req.params.id }`
abbrev pub history_query : Resource → Request → Object
history_query s req = prop "resource" (str s.schema.path) (prop "recordId" req.id empty)

unfoldable pub get_history : Resource → Request → Handler Reply
get_history s req = do
  let page = page_number (get "__page" req.query)
  answer ← call (find_one (record_filter s req))
  found ← found_or_404 s answer
  list ← call (find_history (history_query s req) (skip_of page s.page_size) s.page_size)
  count ← call (count_history (history_query s req))
  done (page_reply (page_of (map (project_entry s req) list) count page s.page_size))
