-- ===== src/Rest/Create.antt =====
-- schemaLoader.js: `POST /api/{version}/{path}`.
use davepi.Base.{List, Option, [], none, some, ◌∷◌}
use davepi.Js.{Object, undefined, null, obj, str, get, to_text}
use davepi.Acl.{create, filter_writable}
use davepi.StateMachine.{stamp_initial_states, attach_available_transitions}
use davepi.Program.{call, ◌>>=◌, ◌>>◌, done}
use davepi.ScopeResolver.{hook_of, overlay_stamped}
use davepi.ScopeResolver.Create.{restamp}
use davepi.Rest.{
  Resource, Request, Handler, Reply, reply, create_record, decorate_file_urls, apply_computed,
  run_before, run_after, audit, emit, event_type, of_record, or_null, project_or_null,
}

-- The document before the hook: the writable fields, the owner, and the initial states.
unfoldable pub initial_document : Resource → Request → Object
initial_document s req =
    stamp_initial_states
      (overlay_stamped req.user.user_id (filter_writable req.body s.schema (some req.user) create))
      s.schema

-- The record of a list of one.
abbrev pub single : List (Option Object) → Option Object
single [] = none
single (r ∷ rs) = r

unfoldable pub post : Resource → Request → Handler Reply
post s req = do
  data_ ←
      run_before "beforeCreate" (hook_of (λ h. h.before_create) s.schema)
        (record { input = obj (initial_document s req); current = undefined; user = some req.user })
  stored ← call (create_record (restamp (some req.user) data_))
  decorated ← call (decorate_file_urls (some stored ∷ []))
  computed ← call (apply_computed decorated)
  let plain = single (attach_available_transitions computed s.schema (some req.user))
  audit s (record {
    record_id = get "_id" stored;
    action = "create";
    before = null;
    after = or_null plain;
  })
  let projected = project_or_null s req plain
  emit (
      of_record (event_type s "created") req.user.user_id (str (to_text (get "_id" stored)))
        projected null projected)
  run_after "afterCreate" (hook_of (λ h. h.after_create) s.schema)
      (record { input = projected; current = undefined; user = some req.user })
  done (reply 201 projected)
