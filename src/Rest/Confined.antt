-- ===== src/Rest/Confined.antt =====
-- The queries of the routes that read, for one caller.
use davepi.Base.{String, [], false, some, true, ◌∷◌, ◌≡◌, ◌⊎◌}
use davepi.Js.{prop, empty, strict_eq, Object, null, str, get}
use davepi.ScopeResolver.{read}
use davepi.ScopeResolver.Isolation.{SameBut, IsConfined}
use davepi.Rest.{
  Resource, Request, Command, find_one, find_page, count_documents, find_history, count_history,
  decorate_file_urls, apply_includes, apply_computed,
}
use davepi.Rest.Steps.{Past, Happened}

module _ (s : Resource) (req : Request) (owner : String) where
  abbrev pub IsConfinedRead : Object → Type 0
  IsConfinedRead = IsConfined read s.schema (some req.user) owner

  -- A query with the properties of a filter confined to the caller, but for a search's and the tombstone's.
  abbrev pub IsOwnQuery : Object → Type 0
  IsOwnQuery q = (f : Object) × IsConfinedRead f × SameBut ("$text" ∷ "deletedAt" ∷ []) q f

  -- The query leaves tombstones out, unless there are none or the query string asks for them.
  abbrev pub IsLiveQuery : Object → Type 0
  IsLiveQuery q =
      (s.soft_delete_enabled ≡ false)
      ⊎ ((strict_eq (get "__includeDeleted" req.query) (str "true") ≡ true)
          ⊎ (get "deletedAt" q ≡ null))

  -- What a route that reads may ask for: records of the caller, an audit log after the record of its
  -- id was found by such a query, and the properties that are added to records.
  abbrev pub ReadsOwn : Past → Command → Type 0
  ReadsOwn past (find_one q) = IsOwnQuery q
  ReadsOwn past (find_page p) = IsOwnQuery p.filter × IsLiveQuery p.filter
  ReadsOwn past (count_documents q) = IsOwnQuery q × IsLiveQuery q
  ReadsOwn past (find_history q skip limit) =
      (q ≡ prop "resource" (str s.schema.path) (prop "recordId" req.id empty))
      × (own : Object) × IsOwnQuery own
      × (found : Object) × Happened (find_one own) (some found) past
  ReadsOwn past (count_history q) =
      (q ≡ prop "resource" (str s.schema.path) (prop "recordId" req.id empty))
      × (own : Object) × IsOwnQuery own
      × (found : Object) × Happened (find_one own) (some found) past
  ReadsOwn past (decorate_file_urls records) = Unit
  ReadsOwn past (apply_includes included records) = Unit
  ReadsOwn past (apply_computed records) = Unit
  ReadsOwn past c = ⊥
