-- ===== src/Rest/Changed.antt =====
-- The commands of `PUT /api/{version}/{path}/:id`.
use davepi.Base.{
  All, Bool, List, Option, String, [], arith, eqb, false, inl, inr, none, refl, some, true, ◌==◌,
  ◌∷◌, ◌≡◌, ◌⊎◌,
}
use davepi.Js.{
  Value, Object, undefined, null, bool, num, str, arr, obj, nil, cons, empty, no_keys, strict_eq,
}
use davepi.Schema.{Hook, StateMachine}
use davepi.Acl.{update, filter_writable, strip_tenant_fields, bypass_user_scope_for_write}
use davepi.Acl.Owner.{IsUnowned, strip_tenant_fields-IsUnowned}
use davepi.StateMachine.{
  Transition, Verdict, valid, invalid, validate_transition, list_transitions_to_validate,
  includes_value,
}
use davepi.StateMachine.Moves.{Move, validate_transition_sound}
use davepi.StateMachine.Records.{
  IsChange, AllFollow, list_transitions_to_validate-AllFollow, list_transitions_to_validate-exact,
}
use davepi.Program.{Ensures, Ensures-bind, ◌>>=◌}
use davepi.ScopeResolver.{hook_of}
use davepi.ScopeResolver.{write}
use davepi.ScopeResolver.Bypass.{IsBypass, bypass_for-IsBypass}
use davepi.ScopeResolver.Filter.{bypass_for}
use davepi.Rest.{
  Resource, Request, Command, Handler, UpdateResult, find_one, find_by_id, update_one, run_hook,
  enter_state, record_audit, emit_record_event, found_or_404, or_null,
}
use davepi.Rest.Steps.{
  Past, Anything, Happened, hook_answer-Ensures, run_after-Ensures, audit-Ensures, call_if-Ensures,
  branch-Ensures,
}
use davepi.Rest.Targets.{weaken-IsAimed, IsAimed, soft-IsAimed}
use davepi.Rest.Created.{IsShownEvent}
use davepi.Rest.Update.{
  update_query, needs_before, read_before, before_update, as_payload, require_record, validate_all,
  accept_or_fail, tell_update, synthetic, write_changes, read_after, audit_update,
  follow_transitions, apply_update, put_by_id,
}

-- A transition along the machine of its field.
abbrev pub IsDeclared : Transition → Type 0
IsDeclared t = (includes_value t.machine.states t.next ≡ true) × Move t.machine t.current t.next

-- A move along the machine to a listed state.
abbrev pub IsMove : StateMachine → Value → Value → Type 0
IsMove sm current next = (includes_value sm.states next ≡ true) × Move sm current next

-- A transition that was accepted.
abbrev IsAccepted : Transition → Type 0
IsAccepted t = (b : Bool) × (validate_transition t.field.name t.machine t.current t.next ≡ valid b)

accepted-IsDeclared :
    (t : Transition) → strict_eq t.current t.next ≡ false → IsAccepted t → IsDeclared t
unfolding validate_transition
accepted-IsDeclared t d (b, h) =
    validate_transition_sound t.field.name t.machine t.current t.next (ground arith)

All-IsDeclared :
    (writable : Object) (before : Option Object) (ts : List Transition)
    → All (IsChange writable before) ts
    → All IsAccepted ts
    → All IsDeclared ts
All-IsDeclared writable before [] h k = tt
All-IsDeclared writable before (t ∷ ts) (h, hs) (k, ks) =
    (accepted-IsDeclared t h.3 k, All-IsDeclared writable before ts hs ks)

module _ (s : Resource) (req : Request) (owner : String) where
  abbrev pub write_bypass : Bool
  write_bypass = bypass_user_scope_for_write s.schema (some req.user)

  -- The record that the payload was checked against: the latest answer to the query, if it was asked.
  abbrev pub WasRead : Past → Option Object → Type 0
  WasRead past before =
      Happened (find_one (update_query s req)) before past ⊎ (needs_before s ≡ false)

  -- What an update may do. It sets properties only of the record of its id under the caller's
  -- ownership; they name no owner, and each state field that they change moves along its machine from
  -- the state that was read.
  abbrev pub Changes : Past → Command → Type 0
  Changes past (find_one q) = IsAimed (IsBypass write s.schema (some req.user)) req owner q
  Changes past (find_by_id id) = id ≡ req.id
  Changes past (update_one q set) =
      IsAimed (IsBypass write s.schema (some req.user)) req owner q
      × IsUnowned set
      × ((before : Option Object) × WasRead past before × AllFollow IsMove set before s.schema)
  Changes past (run_hook name ctx) = ctx.user ≡ some req.user
  Changes past (enter_state field fresh from to) = s.has_on_enter field to ≡ true
  Changes past (record_audit entry) = entry.record_id ≡ req.id
  Changes past (emit_record_event e) = IsShownEvent s req e
  Changes past c = ⊥

  accept-Ensures :
      {A : Type 0} (S : Past → A → Type 0) (past : Past) (name : String) (v : Verdict)
      (rest : Handler (Unit {0})) (f : Unit {0} → Handler A)
      → ((b : Bool) → v ≡ valid b → Ensures Changes S past (rest >>= f))
      → Ensures Changes S past (accept_or_fail name v rest >>= f)
  accept-Ensures S past name (valid b) rest f h = h b refl
  accept-Ensures S past name (invalid r) rest f h = tt

  validate_all-Ensures :
      {A : Type 0} (S : Past → A → Type 0) (past : Past) (ts : List Transition)
      (f : Unit {0} → Handler A)
      → (All IsAccepted ts → Ensures Changes S past (f tt))
      → Ensures Changes S past (validate_all ts >>= f)
  unfolding validate_all
  validate_all-Ensures S past [] f h = h tt
  validate_all-Ensures S past (t ∷ ts) f h =
      accept-Ensures S past t.field.name _ (validate_all ts) f
        λ b e. validate_all-Ensures S past ts f (λ k. h ((b, e), k))

  as_payload-Ensures :
      {A : Type 0} (S : Past → A → Type 0) (past : Past) (v : Value) (f : Object → Handler A)
      → ((o : Object) → Ensures Changes S past (f o))
      → Ensures Changes S past (as_payload v >>= f)
  unfolding as_payload
  as_payload-Ensures S past (obj o) f h = h o
  as_payload-Ensures S past (bool b) f h = h empty
  as_payload-Ensures S past (num n) f h = h empty
  as_payload-Ensures S past (str t) f h =
      branch-Ensures Changes S past (t == "") _ _ f (λ _. h empty) (λ _. tt)
  as_payload-Ensures S past (arr nil) f h = h empty
  as_payload-Ensures S past (arr (cons v vs)) f h = tt
  as_payload-Ensures S past undefined f h = tt
  as_payload-Ensures S past null f h = tt

  require_record-Ensures :
      {A : Type 0} (S : Past → A → Type 0) (past : Past) (ts : List Transition)
      (before : Option Object) (f : Unit {0} → Handler A)
      → Ensures Changes S past (f tt)
      → Ensures Changes S past (require_record s ts before >>= f)
  require_record-Ensures S past [] before f h = h
  require_record-Ensures S past (t ∷ ts) none f h = tt
  require_record-Ensures S past (t ∷ ts) (some b) f h = h

  follow-Ensures :
      (past : Past) (before after : Option Object) (ts : List Transition)
      → Ensures Changes Anything past (follow_transitions s req before after ts)
  unfolding follow_transitions
  follow-Ensures past before after [] = tt
  follow-Ensures past before after (t ∷ ts) =
      audit-Ensures Changes Anything past s _ _ refl λ past' later. (
        (refl, (after, refl), (before, refl), (after, refl)),
        λ told.
            call_if-Ensures Changes Anything _ (s.has_on_enter t.field.name t.next)
              (enter_state t.field.name (or_null after) t.current t.next) _ (λ r. r) (λ e. e)
              λ past'' later'. follow-Ensures past'' before after ts,
      )

  audit_update-Ensures :
      {A : Type 0} (S : Past → A → Type 0) (past : Past) (before after : Option Object)
      (f : Unit {0} → Handler A)
      → ((past' : Past) → Ensures Changes S past' (f tt))
      → Ensures Changes S past (audit_update s req before after >>= f)
  audit_update-Ensures S past none after f h = h past
  audit_update-Ensures S past (some b) after f h =
      audit-Ensures Changes S past s _ f refl λ past' later. h past'

  tell-Ensures :
      (past : Past) (before after : Option Object) (ts : List Transition) (result : UpdateResult)
      → Ensures Changes Anything past (tell_update s req before after ts result)
  unfolding tell_update
  tell-Ensures past before after ts result =
      audit_update-Ensures Anything past before after _ λ past'. (
        (refl, (after, refl), (before, refl), (after, refl)),
        λ told.
            run_after-Ensures Changes Anything _ "afterUpdate"
              (hook_of (λ h. h.after_update) s.schema) _ _ refl
              λ past'' later.
                Ensures-bind Changes Anything Anything past''
                  (follow_transitions s req before after ts) _
                  (follow-Ensures past'' before after ts) λ _ _ _. tt,
      )

  after_write-Ensures :
      (past : Past) (before : Option Object) (ts : List Transition) (result : UpdateResult)
      → Ensures Changes Anything past
          (read_after req before >>= (λ after. tell_update s req before after ts result))
  after_write-Ensures past none ts result = tell-Ensures past none none ts result
  after_write-Ensures past (some b) ts result =
      (refl, λ after. tell-Ensures _ (some b) after ts result)

  synthetic-Ensures :
      {A : Type 0} (S : Past → A → Type 0) (past : Past) (answer : Option Object)
      (f : UpdateResult → Handler A)
      → ((result : UpdateResult) → Ensures Changes S past (f result))
      → Ensures Changes S past ((found_or_404 s answer >>= synthetic) >>= f)
  unfolding found_or_404
  synthetic-Ensures S past none f h = tt
  synthetic-Ensures S past (some o) f h = h _

  write-Ensures :
      {A : Type 0} (S : Past → A → Type 0) (past : Past) (before : Option Object) (set : Object)
      (f : UpdateResult → Handler A)
      → IsAimed (IsBypass write s.schema (some req.user)) req owner (update_query s req)
      → WasRead past before
      → IsUnowned set
      → All IsDeclared (list_transitions_to_validate set before s.schema)
      → ((past' : Past) (result : UpdateResult) → Ensures Changes S past' (f result))
      → Ensures Changes S past (write_changes s req set >>= f)
  write-Ensures S past before set f aimed was u d h =
      branch-Ensures Changes S past (no_keys set) _ _ f
        (λ _. (aimed, λ answer. synthetic-Ensures S _ answer f (h _)))
        λ _. (
          (
            aimed,
            u,
            (before, was, list_transitions_to_validate-AllFollow IsMove set before s.schema d),
          ),
          λ result.
              branch-Ensures Changes S _ (eqb result.matched 0) _ _ f (λ _. tt) (λ _. h _ result),
        )

  -- The rest of an update, behind the payload and the record that were checked.
  apply-Ensures :
      (past : Past) (before : Option Object) (set : Object)
      → IsAimed (IsBypass write s.schema (some req.user)) req owner (update_query s req)
      → WasRead past before
      → IsUnowned set
      → All IsDeclared (list_transitions_to_validate set before s.schema)
      → Ensures Changes Anything past
          (apply_update s req before set (list_transitions_to_validate set before s.schema))
  unfolding apply_update
  apply-Ensures past before set aimed was u d =
      write-Ensures Anything past before set _ aimed was u d
        λ past' result. after_write-Ensures past' before _ result

  read-Ensures :
      {A : Type 0} (S : Past → A → Type 0) (f : Option Object → Handler A)
      → IsAimed (IsBypass write s.schema (some req.user)) req owner (update_query s req)
      → ((past : Past) (before : Option Object)
          → WasRead past before
          → Ensures Changes S past (f before))
      → Ensures Changes S [] (read_before s req >>= f)
  read-Ensures S f aimed h =
      branch-Ensures Changes S [] (needs_before s) _ _ f
        (λ _. (aimed, λ answer. h _ answer (inl (inl refl)))) λ e. h [] none (inr e)

  before_update-Ensures :
      {A : Type 0} (S : Past → A → Type 0) (past : Past) (hook : Option Hook)
      (before : Option Object) (writable : Object) (f : Value → Handler A)
      → WasRead past before
      → ((past' : Past) (v : Value) → WasRead past' before → Ensures Changes S past' (f v))
      → Ensures Changes S past (before_update s req hook before writable >>= f)
  unfolding found_or_404
  before_update-Ensures S past none before writable f was h = h past (obj writable) was
  before_update-Ensures S past (some hook) none writable f was h = tt
  before_update-Ensures S past (some hook) (some b) writable f was h = (
    refl,
    λ answer.
        hook_answer-Ensures Changes S _ (obj writable) answer f
          λ v. h _ v (elim was [ inl happened ↦ inl (inr happened) | inr e ↦ inr e ]),
  )

-- `PUT` by id sets properties only of the record of the path's id that is the caller's, or anyone's under
-- the write bypass; the properties name no owner, and each field with states that they set to
-- another value moves along its machine from the value that was read, to a listed state, whatever the body and a hook say. A request without such a record
-- changes nothing; an event carries the record only as the caller may see it.
pub put_by_id-Changes :
    (s : Resource) (req : Request) (owner id : String)
    → req.user.user_id ≡ str owner
    → req.id ≡ str id
    → Ensures (Changes s req owner) Anything [] (put_by_id s req)
unfolding put_by_id update_query
put_by_id-Changes s req owner id is_owner is_id =
    read-Ensures s req owner Anything _ aimed λ past before was.
      before_update-Ensures s req owner Anything past (hook_of (λ h. h.before_update) s.schema)
        before (filter_writable req.body s.schema (some req.user) update) _ was
        λ past' hooked was'. as_payload-Ensures s req owner Anything past' hooked _ λ payload.
          let set = strip_tenant_fields payload in
          let ts = list_transitions_to_validate set before s.schema in
          require_record-Ensures s req owner Anything past' ts before _ (
            validate_all-Ensures s req owner Anything past' ts _ λ accepted.
              apply-Ensures s req owner past' before set aimed was'
                (strip_tenant_fields-IsUnowned payload).0
                (All-IsDeclared set before ts
                  (list_transitions_to_validate-exact set before s.schema).0 accepted))
  where
    aimed : IsAimed (IsBypass write s.schema (some req.user)) req owner (update_query s req)
    aimed =
        weaken-IsAimed (write_bypass s req owner ≡ true) _ req owner (update_query s req)
          (λ b. bypass_for-IsBypass write s.schema (some req.user) (unfold bypass_for in b))
          (soft-IsAimed req owner id is_owner is_id s (write_bypass s req owner))
