-- ===== src/Rest/Files.antt =====
-- schemaLoader.js and utils/fileFields.js: the routes of a file field, which upload, serve and delete its
-- blob. The parsing of the multipart body is multer's, and gives the handler a file, none, or too large a
-- one; what storing a blob throws ends the request.
use Prim.Native.Char.{Char, char, code}
use Prim.Native.String
use davepi.Base.{
  Bool, List, Option, String, [], eqb, false, if◌then◌else◌, is_empty, leb, none, not, some, true,
  ℕ, ◌&&◌, ◌==◌, ◌||◌, ◌∷◌,
}
use davepi.Js.{
  Value, Object, undefined, null, num, str, obj, prop, empty, get, put, truthy, to_text, strict_eq,
}
use davepi.Acl.{
  bypass_user_scope_for_list, bypass_user_scope_for_delete, get_role_scope_filter,
  apply_role_scope_filter,
}
use davepi.Program.{call, done, failed, ◌>>=◌, ◌>>◌}
use davepi.ScopeResolver.ById.{ownership_query}
use davepi.Rest.{
  Resource, Request, Handler, Reply, reply, no_content, redirect, find_one, random_uuid, put_blob,
  save_record, remove_blob, signed_url, decorate_file_urls, found_or_404, without_tombstones,
  project_or_null, emit, event_type, of_record, validation_error, save_error, not_found_error,
}
use davepi.Rest.Create.{single}
use davepi.Rest.Delete.{blob_key}

-- A file field: its name, its accepted types where it lists any, and whether it is private.
pub record FileField : Type 0 where
  pub name : String
  pub accept : Option (List String)
  pub is_private : Bool

-- `req.file`
pub record Upload : Type 0 where
  pub original_name : String
  pub mime_type : String
  pub size : ℕ

pub data Multipart : Type 0 where
  no_file too_large : Multipart
  file : Upload → Multipart

-- `pattern.slice(0, -2) + '/'` for a pattern that ends in `/*`
unfoldable pub type_prefix : String → Option String
type_prefix String.[] = none
type_prefix (String.◌∷◌ c s) =
    let rest : Option String = type_prefix s in
    if String.◌∷◌ c s == "/*"
    then some "/"
    else elim rest [ none ↦ none | some p ↦ some (String.◌∷◌ c p) ]

-- `mime.startsWith(prefix)`
unfoldable pub has_prefix : String → String → Bool
has_prefix String.[] mime = true
has_prefix (String.◌∷◌ p ps) String.[] = false
has_prefix (String.◌∷◌ p ps) (String.◌∷◌ c cs) =
    let rest : Bool = has_prefix ps cs in if eqb (code p) (code c) then rest else false

unfoldable pub accepts : String → List String → Bool
accepts mime [] = false
accepts mime (p ∷ ps) =
    p == mime
    || elim (type_prefix p) [ none ↦ false | some prefix ↦ has_prefix prefix mime ]
    || accepts mime ps

-- `matchAccept`
unfoldable pub match_accept : String → Option (List String) → Bool
match_accept mime none = true
match_accept mime (some accept) = is_empty accept || accepts mime accept

-- `[A-Za-z0-9._-]`
unfoldable pub is_safe : ℕ → Bool
is_safe c =
    (leb b'A' c && leb c b'Z')
    || (leb b'a' c && leb c b'z')
    || (leb b'0' c && leb c b'9')
    || eqb c b'.'
    || eqb c b'_'
    || eqb c b'-'

abbrev pub underscore : Char
underscore = char b'_' tt

-- The text with each run of other characters as one `_`; `inside` is whether such a run goes on.
unfoldable pub replace_runs : Bool → String → String
replace_runs inside String.[] = ""
replace_runs inside (String.◌∷◌ c s) =
    let kept : String = String.◌∷◌ c (replace_runs false s) in
    let rest : String = replace_runs true s in
    if is_safe (code c) then kept else if inside then rest else String.◌∷◌ underscore rest

-- `originalname.replace(/[^A-Za-z0-9._-]+/g, '_')`
unfoldable pub safe_name : String → String
safe_name name = replace_runs false name

abbrev pub concat : List String → String
concat [] = ""
concat (t ∷ ts) = String.◌++◌ t (concat ts)

abbrev pub access_prefix : FileField → String
access_prefix ff = if ff.is_private then "private" else "public"

-- The key of a new blob.
unfoldable pub new_key : Resource → FileField → Object → String → Upload → String
new_key s ff record_ uuid f = concat (
    access_prefix ff
    ∷ "/"
    ∷ s.schema.path
    ∷ "/"
    ∷ to_text (get "_id" record_)
    ∷ "/"
    ∷ ff.name
    ∷ "/"
    ∷ uuid
    ∷ "-"
    ∷ safe_name f.original_name
    ∷ [])

-- `key !== other`, for a key and a property
abbrev pub is_other : Value → String → Bool
is_other v key = truthy v && not (strict_eq v (str key))

abbrev pub field_of : FileField → Option Object → Value
field_of ff none = undefined
field_of ff (some o) = get ff.name o

-- `bucket` is the storage's, or null, and `now` the time of the request.
module _ (bucket now : Value) where
  unfoldable pub meta : String → Upload → Object
  meta key f = prop "key" (str key) (
      prop "bucket" bucket (
        prop "size" (num f.size) (
          prop "contentType" (str f.mime_type)
            (prop "originalName" (str f.original_name) (prop "uploadedAt" now empty)))))

  -- Behind a save that threw, the new blob goes; behind one that did not, the old one.
  abbrev pub clean_up : String → Value → Option String → Handler (Unit {0})
  clean_up key previous (some message) = call (remove_blob (str key)) >> failed (save_error message)
  clean_up key previous none =
      if is_other previous key then call (remove_blob previous) else done tt

  unfoldable pub store_file : Resource → FileField → Request → Upload → Handler Reply
  store_file s ff req f = do
    let bypass = bypass_user_scope_for_list s.schema (some req.user)
    answer ← call (find_one (without_tombstones s (ownership_query bypass req.id req.user.user_id)))
    found ← found_or_404 s answer
    uuid ← call random_uuid
    let key = new_key s ff found uuid f
    stored ← call (put_blob key)
    let changed = put ff.name (obj (meta key f)) found
    saved ← call (save_record changed)
    clean_up key (blob_key (get ff.name found)) saved
    decorated ← call (decorate_file_urls (some changed ∷ []))
    emit (
        of_record (event_type s "updated") (str (to_text req.user.user_id))
          (str (to_text (get "_id" found))) (project_or_null s req (single decorated)) undefined
          undefined)
    done (reply 201 (field_of ff (single decorated)))

  -- `POST /api/{version}/{path}/:id/{field}`, with what multer read.
  unfoldable pub upload : Resource → FileField → Request → Multipart → Handler Reply
  upload s ff req no_file = failed (validation_error "multipart field \"file\" required")
  upload s ff req too_large = failed (validation_error "File exceeds the limit")
  upload s ff req (file f) =
      if match_accept f.mime_type ff.accept
      then store_file s ff req f
      else failed (validation_error "File type not allowed")

-- `storage.publicUrl`
module _ (public_url : Value → String) where
  abbrev pub serve : FileField → Value → Handler Reply
  serve ff key =
      if ff.is_private
      then (call (signed_url key) >>= (λ url. done (redirect url)))
      else done (redirect (public_url key))

  -- `GET /api/{version}/{path}/:id/{field}`
  unfoldable pub download : Resource → FileField → Request → Handler Reply
  download s ff req = do
    let bypass = bypass_user_scope_for_list s.schema (some req.user)
    let scoped =
        apply_role_scope_filter (ownership_query bypass req.id req.user.user_id)
          (get_role_scope_filter s.schema (some req.user))
    answer ← call (find_one (without_tombstones s scoped))
    found ← found_or_404 s answer
    let key = blob_key (get ff.name found)
    if truthy key
        then done tt
        else failed (not_found_error (concat (s.schema.path ∷ "." ∷ ff.name ∷ [])))
    serve ff key

-- What a save that throws leaves of the request.
abbrev pub or_save_error : Option String → Handler Reply
or_save_error none = done no_content
or_save_error (some message) = failed (save_error message)

abbrev pub clear_file : FileField → Object → Value → Handler Reply
clear_file ff found key = do
  removed ← call (remove_blob key)
  saved ← call (save_record (put ff.name null found))
  or_save_error saved

-- `DELETE /api/{version}/{path}/:id/{field}`
unfoldable pub delete_file : Resource → FileField → Request → Handler Reply
delete_file s ff req = do
  let bypass = bypass_user_scope_for_delete s.schema (some req.user)
  answer ← call (find_one (without_tombstones s (ownership_query bypass req.id req.user.user_id)))
  found ← found_or_404 s answer
  let key = blob_key (get ff.name found)
  if truthy key then clear_file ff found key else done no_content
