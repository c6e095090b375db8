-- ===== src/Tests/Routes.antt =====
-- The routes of schemaLoader.js on a sample resource.
use davepi.Base.{
  List, [], arith, false, if◌then◌else◌, ltb, none, refl, some, suc, true, ℕ, ◌&&◌, ◌*◌, ◌/◌, ◌<◌,
  ◌∷◌, ◌≡◌, ◌≤◌,
}
use davepi.Js.{
  has_own, Value, Object, undefined, null, bool, num, str, obj, empty, prop, get, put, strict_eq,
}
use davepi.Schema.{Field}
use davepi.Acl.{can_read_field, field_by_name, user_roles, bypass_user_scope_for_write, grants}
use davepi.Program.{Ensures}
use davepi.Rest.{Resource, Request, apply_soft_delete_filter, pos}
use davepi.Rest.Steps.{Anything}
use davepi.Rest.Numbers.{parse_int, page_number}
use davepi.Rest.Pages.{page_of, total_pages_of}
use davepi.Rest.Paging.{IsOn, page_of-covers}
use davepi.Rest.Read.{allowed_diff_key, keep_allowed}
use davepi.Rest.Update.{put_by_id, update_query}
use davepi.Rest.Delete.{delete_by_id, restore}
use davepi.Rest.Changed.{Changes, put_by_id-Changes}
use davepi.Rest.Deleted.{Deletes, present, delete-Deletes}
use davepi.Rest.Files.{
  FileField, Upload, file, safe_name, upload, match_accept, accepts, type_prefix, has_prefix,
  is_safe, replace_runs,
}
use davepi.Rest.Uploaded.{Uploads, upload-Uploads}
use davepi.Rest.History.{keep_allowed-hides}
use davepi.Tests.{ann, invoices, invoice_fields, forged}

abbrev resource : Resource
resource = record {
  schema = invoices;
  soft_delete_enabled = true;
  audit_enabled = true;
  has_searchable = true;
  file_fields = "scan" ∷ [];
  page_size = 10;
  parse_query = λ q. q;
  has_on_enter = λ field state. false;
}

abbrev hard_resource : Resource
hard_resource = record resource { soft_delete_enabled = false }

abbrev request : Request
request = record {
  user = ann;
  id = str "i1";
  query = prop "status" (str "sent") (prop "__page" (str "2") empty);
  body = forged;
}

put_by_id-Changes_example :
    Ensures (Changes resource request "u1") Anything [] (put_by_id resource request)
put_by_id-Changes_example = put_by_id-Changes resource request "u1" "i1" refl refl

delete-Deletes_example :
    Ensures
      (Deletes hard_resource request "u1" null (num 90))
      Anything
      []
      (delete_by_id (num 90) hard_resource request)
    × Ensures
        (Deletes hard_resource request "u1" present null)
        Anything
        []
        (restore hard_resource request)
delete-Deletes_example = delete-Deletes (num 90) hard_resource request "u1" "i1" refl refl

abbrev scan : FileField
scan = record { name = "scan"; accept = some ("image/*" ∷ []); is_private = true }

abbrev picture : Upload
picture = record { original_name = "my scan.png"; mime_type = "image/png"; size = 5 }

upload-Uploads_example :
    Ensures
      (Uploads resource scan request "u1" null (num 90) picture)
      Anything
      []
      (upload null (num 90) resource scan request (file picture))
upload-Uploads_example =
    upload-Uploads resource scan request "u1" "i1" null (num 90) picture refl refl

page_of-covers_example :
    ((i : ℕ)
      → i < 25
      → (suc (i / 10) ≤ total_pages_of 25 10)
        × IsOn i (suc (i / 10)) 10
        × ((p : ℕ) → IsOn i (suc p) 10 → p ≡ i / 10))
    × ((results : List Value) (p : ℕ)
        → (page_of results 25 (pos p) 10).next_page
          ≡ (if ltb (p * 10) 25 then some (pos (suc p)) else none))
page_of-covers_example = page_of-covers 25 10 (omega arith)

abbrev margin_diff : Object
margin_diff = prop "margin" (num 3) (prop "total" (num 7) empty)

keep_allowed-hides_example :
    (has_own "margin" (keep_allowed invoice_fields (user_roles (some ann)) margin_diff) ≡ (
      allowed_diff_key invoice_fields (user_roles (some ann)) "margin"
      && has_own "margin" margin_diff))
    × ((f : Field)
        → field_by_name invoice_fields "margin" ≡ some f
        → can_read_field f (some ann) ≡ false
        → has_own "margin" (keep_allowed invoice_fields (user_roles (some ann)) margin_diff)
          ≡ false)
keep_allowed-hides_example = keep_allowed-hides invoice_fields ann margin_diff "margin"

-- A page parameter that is no number, or 0, is the first page; a hexadecimal one is read.
page_numbers :
    (page_number (str "abc") ≡ pos 1)
    × (page_number (str "0") ≡ pos 1)
    × (page_number (str " 12x") ≡ pos 12)
    × (page_number (str "0x1F") ≡ pos 31)
unfolding page_number parse_int davepi.Auth.Words.trim davepi.Js.to_text
page_numbers = (refl, refl, refl, refl)

-- An update whose query string asks for tombstones does not exclude them.
writes_tombstones :
    update_query resource (record request { query = prop "__includeDeleted" (str "true") empty })
    ≡ prop "userId" (str "u1") (prop "_id" (str "i1") empty)
unfolding update_query apply_soft_delete_filter strict_eq get bypass_user_scope_for_write grants
writes_tombstones = refl

-- A name keeps its safe characters, and a type matches a pattern that ends in `/*`.
file_names :
    (safe_name "my (1) scan.png" ≡ "my_1_scan.png")
    × (match_accept "image/png" (some ("text/plain" ∷ "image/*" ∷ [])) ≡ true)
    × (match_accept "imagex/png" (some ("image/*" ∷ [])) ≡ false)
unfolding safe_name replace_runs is_safe match_accept accepts type_prefix has_prefix
file_names = (refl, refl, refl)
