-- ===== src/ScopeResolver/Results.antt =====
-- scopeResolver.js: `projectResult` and `emitForMutation`, on a result of any shape. A copy of a
-- database document as a plain object is the object itself; a record is an object or is falsy.
use Prim.Native.String
use davepi.Base.{
  Bool, List, Option, String, [], false, if◌then◌else◌, map, none, not, some, true, ◌&&◌, ◌∷◌,
}
use davepi.Js.{
  Value, undefined, null, num, str, arr, obj, Items, nil, cons, Object, get, put, truthy, to_text,
}
use davepi.Schema.{User, Schema}
use davepi.Acl.{project_by_acl, id_of}
use davepi.ScopeResolver.{Event, of_record, of_many, emitted, ok, Run}

module _ (schema : Schema) (user : Option User) where
  -- `projectByAcl(toPlain(r), schema, user)`
  unfoldable pub project_value : Value → Value
  project_value (obj o) = elim (project_by_acl (some o) schema user) [
    | none ↦ obj o
    | some p ↦ obj p
  ]
  project_value v = v

  unfoldable pub project_items : Items → Items
  project_items nil = nil
  project_items (cons v vs) = cons (project_value v) (project_items vs)

  project_edge : Value → Value
  project_edge (obj e) =
      obj (
        put "node" (if truthy (get "node" e) then project_value (get "node" e) else get "node" e) e)
  project_edge v = v

  project_edges : Items → Items
  project_edges nil = nil
  project_edges (cons v vs) = cons (project_edge v) (project_edges vs)

  -- A property of the envelope that holds an array is projected.
  project_array : (Items → Items) → String → Value → Object → Object
  project_array f k (arr vs) out = put k (arr (f vs)) out
  project_array f k _ out = out

  project_envelope : Object → Object
  project_envelope result =
      let out1 : Object =
        if truthy (get "record" result)
        then put "record" (project_value (get "record" result)) result
        else result in
      let out2 : Object = project_array project_items "records" (get "records" out1) out1 in
      let out3 : Object = project_array project_items "items" (get "items" out2) out2 in
      project_array project_edges "edges" (get "edges" out3) out3

  -- `result._id !== undefined`
  is_undefined : Value → Bool
  is_undefined undefined = true
  is_undefined _ = false

  unfoldable pub is_single : Object → Bool
  unfolding is_undefined
  is_single result =
      not (is_undefined (get "_id" result))
      && not (truthy (get "record" result))
      && not (truthy (get "records" result))

  -- `projectResult`
  unfoldable pub project_result : Value → Value
  unfolding project_edge project_edges project_array project_envelope is_single
  project_result (arr vs) = arr (project_items vs)
  project_result (obj result) =
      if is_single result then project_value (obj result) else obj (project_envelope result)
  project_result v = v

  -- `plain && plain._id ? String(plain._id) : undefined`
  abbrev record_id_of : Value → Value
  record_id_of (obj o) = if truthy (get "_id" o) then str (to_text (get "_id" o)) else undefined
  record_id_of v = undefined

  record_event : String → Value → Event
  record_event action v =
      of_record (String.◌++◌ (String.◌++◌ schema.path ".") action) (id_of user) (record_id_of v)
        (if truthy v then project_value v else null)

  record_events : String → Items → List Event
  record_events action nil = []
  record_events action (cons v vs) = record_event action v ∷ record_events action vs

  many_event : String → Value → List Event
  many_event action (num n) =
      of_many (String.◌++◌ (String.◌++◌ schema.path ".") action) (id_of user) (num n) ∷ []
  many_event action _ = []

  several_events : String → Object → Value → List Event
  unfolding record_events record_event many_event
  several_events action result (arr vs) = record_events action vs
  several_events action result _ = many_event action (get "numAffected" result)

  -- The events of `emitForMutation`.
  unfoldable pub events_of : String → Value → List Event
  unfolding several_events
  events_of action (obj result) =
      if truthy (get "record" result)
      then record_event action (get "record" result) ∷ []
      else several_events action result (get "records" result)
  events_of action _ = []

  -- `emitForMutation`
  unfoldable pub emit_for_mutation : String → Value → Run (Unit {0})
  emit_for_mutation action result = record {
    outcome = ok tt;
    effects = map emitted (events_of action result);
  }
