-- ===== src/Rest/Created.antt =====
-- The commands of `POST /api/{version}/{path}`.
use davepi.Base.{Option, none, refl, some, ◌≡◌, ◌≢◌, ◌⊎◌}
use davepi.Js.{Value, Object, null, obj}
use davepi.Acl.{id_of}
use davepi.Acl.Owner.{IsOwnedBy}
use davepi.Schema.{HookContext, returned}
use davepi.Program.{Happened}
use davepi.Rest.{
  Resource, Request, Command, Event, of_record, of_transition, of_many, create_record, run_hook,
  record_audit, emit_record_event, decorate_file_urls, apply_computed, project_or_null,
}
use davepi.Rest.Steps.{Past}
use davepi.Rest.Create.{initial_document}

module _ (s : Resource) (req : Request) where
  -- A value that the caller is shown: a record's projection for the caller, or null.
  abbrev pub IsShown : Value → Type 0
  IsShown v = (r : Option Object) × (v ≡ project_or_null s req r)

  -- An event that carries records only as the caller may see them, in the caller's name.
  abbrev pub IsShownEvent : Event → Type 0
  IsShownEvent (of_record type user_id record_id shown before after) =
      (user_id ≡ req.user.user_id) × IsShown shown × IsShown before × IsShown after
  IsShownEvent (of_transition field user_id record_id from to shown before after) =
      (user_id ≡ req.user.user_id) × IsShown shown × IsShown before × IsShown after
  IsShownEvent (of_many type user_id filter n) = user_id ≡ req.user.user_id

  abbrev pub IsOwnDocument : Value → Type 0
  IsOwnDocument document = (o : Object) × (document ≡ obj o) × IsOwnedBy req.user.user_id o

  -- A value other than an object that `beforeCreate` returned.
  abbrev pub IsOther : Past → Value → Type 0
  IsOther past v =
      ((o : Object) → v ≢ obj o)
      × (ctx : HookContext) × Happened (run_hook "beforeCreate" ctx) (returned v) past

  -- What a creation may do: store a document of the caller, or what the hook returned that is no object, run the hooks on the document that the
  -- server stamped or on what the caller is shown, and tell of the record.
  abbrev pub Creates : Past → Command → Type 0
  Creates past (create_record document) = IsOwnDocument document ⊎ IsOther past document
  Creates past (run_hook name ctx) =
      (ctx.user ≡ some req.user) × ((ctx.input ≡ obj (initial_document s req)) ⊎ IsShown ctx.input)
  Creates past (record_audit entry) = entry.action ≡ "create"
  Creates past (emit_record_event e) = IsShownEvent e
  Creates past (decorate_file_urls records) = Unit
  Creates past (apply_computed records) = Unit
  Creates past c = ⊥

  -- An object, or what the hook returned.
  abbrev IsGiven : Past → Value → Type 0
  IsGiven past v =
      ((o : Object) × (v ≡ obj o))
      ⊎ ((ctx : HookContext) × Happened (run_hook "beforeCreate" ctx) (returned v) past)

  pub IsShown-null : IsShown null
  IsShown-null = (none, unfold davepi.Acl.project_by_acl in refl)
