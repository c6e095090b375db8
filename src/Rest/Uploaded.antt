-- ===== src/Rest/Uploaded.antt =====
-- The commands of the routes of a file field, and the names of its blobs.
use Prim.Native.Char.{Char, code}
use davepi.Base.{
  Bool, Option, String, [], ap, arith, false, if◌then◌else◌, inl, inr, none, refl, some, true, ℕ,
  ◌∷◌, ◌≡◌, ◌≤◌, ◌⊎◌,
}
use davepi.Js.{to_text, Value, Object, str, obj, get, put}
use davepi.Acl.{bypass_user_scope_for_list}
use davepi.Program.{Ensures, ◌>>=◌}
use davepi.ScopeResolver.ById.{ownership_query}
use davepi.ScopeResolver.{read}
use davepi.ScopeResolver.Bypass.{IsBypass, bypass_for-IsBypass}
use davepi.ScopeResolver.Filter.{bypass_for}
use davepi.Rest.{
  Resource, Request, Command, Handler, Reply, find_one, random_uuid, put_blob, save_record,
  remove_blob, decorate_file_urls, emit_record_event, of_record, without_tombstones,
}
use davepi.Rest.Steps.{Past, Anything, Happened, found_or_404-Ensures, branch-Ensures, if-Ensures}
use davepi.Rest.Targets.{weaken-IsAimed, IsAimed, ownership-IsAimed}
use davepi.Rest.Created.{IsShown}
use davepi.Rest.Delete.{blob_key}
use davepi.Rest.Files.{
  FileField, Upload, file, is_safe, underscore, replace_runs, safe_name, concat, new_key, meta,
  is_other, clean_up, store_file, upload, match_accept,
}

-- A letter, a digit, a dot, an underscore or a dash.
abbrev pub IsAllowed : ℕ → Type 0
IsAllowed c =
    ((b'A' ≤ c) × (c ≤ b'Z'))
    ⊎ (((b'a' ≤ c) × (c ≤ b'z'))
        ⊎ (((b'0' ≤ c) × (c ≤ b'9')) ⊎ ((c ≡ b'.') ⊎ ((c ≡ b'_') ⊎ (c ≡ b'-')))))

IsAllowed-is_safe : (c : ℕ) → is_safe c ≡ true → IsAllowed c
unfolding is_safe
IsAllowed-is_safe c h = ground arith

-- Every character of the text may stand in a name of a blob.
abbrev pub AreSafe : String → Type 0
AreSafe String.[] = Unit
AreSafe (String.◌∷◌ c s) = IsAllowed (code c) × AreSafe s

safe_step :
    (on inside : Bool) (c : Char) (kept rest : String)
    → is_safe (code c) ≡ on
    → AreSafe kept
    → AreSafe rest
    → AreSafe
        (if on then String.◌∷◌ c kept else if inside then rest else String.◌∷◌ underscore rest)
unfolding is_safe
safe_step true inside c kept rest e h k = (IsAllowed-is_safe (code c) e, h)
safe_step false true c kept rest e h k = k
safe_step false false c kept rest e h k = (inr (inr (inr (inr (inl refl)))), k)

replace_runs-AreSafe : (inside : Bool) (s : String) → AreSafe (replace_runs inside s)
unfolding replace_runs
replace_runs-AreSafe inside String.[] = tt
replace_runs-AreSafe inside (String.◌∷◌ c s) =
    safe_step (is_safe (code c)) inside c (replace_runs false s) (replace_runs true s) refl
      (replace_runs-AreSafe false s) (replace_runs-AreSafe true s)

module _ (s : Resource) (ff : FileField) (req : Request) (owner : String) (bucket now : Value)
    (f : Upload) where
  abbrev pub list_bypass : Bool
  list_bypass = bypass_user_scope_for_list s.schema (some req.user)

  -- The key of a blob of the record's field, with a safe name last.
  abbrev pub IsBlobKey : Object → String → String → Type 0
  IsBlobKey found uuid key =
      (last : String) × AreSafe last
      × (key
          ≡ concat (
              (if ff.is_private then "private" else "public")
              ∷ "/"
              ∷ s.schema.path
              ∷ "/"
              ∷ to_text (get "_id" found)
              ∷ "/"
              ∷ ff.name
              ∷ "/"
              ∷ uuid
              ∷ "-"
              ∷ last
              ∷ []))

  new_key-IsBlobKey :
      (found : Object) (uuid : String) → IsBlobKey found uuid (new_key s ff found uuid f)
  unfolding new_key safe_name
  new_key-IsBlobKey found uuid =
      (safe_name f.original_name, replace_runs-AreSafe false f.original_name, refl)

  meta-key :
      (found : Object) (uuid : String)
      → get "key" (meta bucket now (new_key s ff found uuid f) f) ≡ str (new_key s ff found uuid f)
  unfolding meta get
  meta-key found uuid = refl

  -- The record was found by the lookup of the upload.
  abbrev pub WasFound : Object → Past → Type 0
  WasFound found past =
      Happened
        (find_one (without_tombstones s (ownership_query list_bypass req.id req.user.user_id)))
        (some found) past

  -- The record with the metadata of the new blob.
  abbrev pub changed_record : Object → String → Object
  changed_record found uuid =
      put ff.name (obj (meta bucket now (new_key s ff found uuid f) f)) found

  -- What an upload may do. The new blob is stored before the record names it; it is removed only behind a
  -- save that threw, and the blob that the record named before only behind a save that did not.
  abbrev pub Uploads : Past → Command → Type 0
  Uploads past (find_one q) = IsAimed (IsBypass read s.schema (some req.user)) req owner q
  Uploads past (put_blob key) =
      (found : Object) × (uuid : String) × WasFound found past
      × (key ≡ new_key s ff found uuid f)
      × IsBlobKey found uuid key
  Uploads past (save_record o) =
      (found : Object) × (uuid : String) × WasFound found past
      × Happened (put_blob (new_key s ff found uuid f)) tt past
      × (o ≡ changed_record found uuid)
      × ((m : Object) × (o ≡ put ff.name (obj m) found)
          × (get "key" m ≡ str (new_key s ff found uuid f)))
  Uploads past (remove_blob key) =
      (found : Object) × (uuid : String) × (saved : Option String) × WasFound found past
      × Happened (save_record (changed_record found uuid)) saved past
      × (((saved ≡ none)
            × (key ≡ blob_key (get ff.name found))
            × (is_other key (new_key s ff found uuid f) ≡ true))
          ⊎ ((m : String) × (saved ≡ some m) × (key ≡ str (new_key s ff found uuid f))))
  Uploads past (emit_record_event (of_record type user_id id shown before after)) =
      IsShown s req shown
  Uploads past (decorate_file_urls records) = Unit
  Uploads past random_uuid = Unit
  Uploads past c = ⊥

  clean_up-Uploads :
      (past : Past) (found : Object) (uuid : String) (saved : Option String)
      (rest : Unit {0} → Handler Reply)
      → WasFound found past
      → Happened (save_record (changed_record found uuid)) saved past
      → ((after : Past) → Ensures Uploads Anything after (rest tt))
      → Ensures Uploads Anything past (
          clean_up bucket now (new_key s ff found uuid f) (blob_key (get ff.name found)) saved
          >>= rest)
  clean_up-Uploads past found uuid (some m) rest was did h =
      ((found, uuid, some m, was, did, inr (m, refl, refl)), λ r. tt)
  clean_up-Uploads past found uuid none rest was did h =
      branch-Ensures Uploads Anything past
        (is_other (blob_key (get ff.name found)) (new_key s ff found uuid f)) _ _ rest
        (λ e. ((found, uuid, none, was, did, inl (refl, refl, e)), λ r. h _)) λ e. h past

  store_file-Uploads :
      IsAimed
        (IsBypass read s.schema (some req.user))
        req
        owner
        (without_tombstones s (ownership_query list_bypass req.id req.user.user_id))
      → Ensures Uploads Anything [] (store_file bucket now s ff req f)
  unfolding store_file
  store_file-Uploads aimed = (
    aimed,
    λ answer. found_or_404-Ensures Uploads Anything _ s answer _ λ found is_found.
        let was : WasFound found (
            (
              find_one (without_tombstones s (ownership_query list_bypass req.id req.user.user_id)),
              answer,
            )
            ∷ []) =
          inl (
            ap
              (λ a. (
                find_one
                    (without_tombstones s (ownership_query list_bypass req.id req.user.user_id)),
                a,
              ))
              is_found) in
        (
          tt,
          λ uuid. (
            (found, uuid, inr was, refl, new_key-IsBlobKey found uuid),
            λ stored. (
              (found, uuid, inr (inr was), inl refl, refl, (_, refl, meta-key found uuid)),
              λ saved.
                  clean_up-Uploads _ found uuid saved _ (inr (inr (inr was))) (inl refl)
                    λ after. (tt, λ decorated. ((_, refl), λ told. tt)),
            ),
          ),
        ),
  )

-- An upload stores a blob only for the record of the path's id that is the caller's, or anyone's under the
-- list bypass, under a key of that record and field whose last part holds no character but letters, digits, dots, dashes and
-- underscores. The record names the blob only after it was stored; the new blob is removed only behind a
-- save that threw, and the blob that the record named before only behind one that did not.
pub upload-Uploads :
    (s : Resource) (ff : FileField) (req : Request) (owner id : String) (bucket now : Value)
    (f : Upload)
    → req.user.user_id ≡ str owner
    → req.id ≡ str id
    → Ensures
        (Uploads s ff req owner bucket now f)
        Anything
        []
        (upload bucket now s ff req (file f))
unfolding upload
upload-Uploads s ff req owner id bucket now f is_owner is_id =
    if-Ensures (Uploads s ff req owner bucket now f) Anything []
      (match_accept f.mime_type ff.accept) _ _
      (λ e. store_file-Uploads s ff req owner bucket now f (
        weaken-IsAimed (bypass_user_scope_for_list s.schema (some req.user) ≡ true) _ req owner _
          (λ b. bypass_for-IsBypass read s.schema (some req.user) (unfold bypass_for in b))
          (ownership-IsAimed req owner id is_owner is_id s
            (bypass_user_scope_for_list s.schema (some req.user)))))
      λ e. tt
