-- ===== src/Rest/Bulk.antt =====
-- schemaLoader.js: `PUT /api/{version}/{path}`.
use davepi.Base.{
  true, Bool, List, Option, String, false, if◌then◌else◌, none, some, some_of, ◌+◌, ◌==◌,
}
use davepi.Js.{Object, put}
use davepi.Schema.{Field}
use davepi.Acl.{create, update, filter_writable, strip_tenant_fields}
use davepi.Program.{call, ◌>>=◌, ◌>>◌, done}
use davepi.Rest.{
  Resource, Request, Handler, Reply, updated, update_many, emit, event_type, of_many,
  without_tombstones,
}

-- `Array.isArray(s.fields) && s.fields.some((f) => f.name === name)`
abbrev pub declares : String → Option (List Field) → Bool
declares name none = false
declares name (some fields) = some_of (λ f. f.name == name) fields

-- `{ ...query, [name]: userId }` where the schema declares the field
abbrev pub stamp_declared : String → Resource → Request → Object → Object
stamp_declared name s req query =
    if declares name s.schema.fields then put name req.user.user_id query else query

-- `safeQuery`
unfoldable pub safe_query : Resource → Request → Object
safe_query s req = without_tombstones s (
    stamp_declared "accountId" s req (
      stamp_declared "userId" s req
        (filter_writable (s.parse_query req.query) s.schema (some req.user) create)))

-- What `$set` holds.
abbrev pub bulk_set : Resource → Request → Object
bulk_set s req = strip_tenant_fields (filter_writable req.body s.schema (some req.user) update)

unfoldable pub put_many : Resource → Request → Handler Reply
put_many s req = do
  result ← call (update_many (safe_query s req) (bulk_set s req) true)
  emit (
      of_many (event_type s "updated") req.user.user_id (safe_query s req)
        (result.modified + result.upserted))
  done (updated result)
