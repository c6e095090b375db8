-- ===== src/ScopeResolver/Updates.antt =====
-- scopeResolver.js, the mutations by id: their lookups, and the payloads and records that they hand on.
use davepi.Base.{
  Bool, Option, String, arith, false, inl, inr, none, refl, some, subst, true, ◌&&◌, ◌∙◌, ◌≡◌, ◌≢◌,
  ◌⊎◌,
}
use davepi.Js.{get, has_own, Value, undefined, null, bool, num, str, arr, obj, Object}
use davepi.Schema.{User, Schema, HookContext}
use davepi.Acl.{Action, create, update, id_of, bypass_user_scope_for_write}
use davepi.Acl.Owner.{IsUnowned, strip_tenant_fields-IsUnowned}
use davepi.ScopeResolver.{
  Outcome, ok, Args, Request, Event, Effect, looked_up, hooked, resolved, emitted, transitioned,
  Run, pure, run_before_hook, run_after_hook, overlay_stamped, Kind, read, write, delete,
}
use davepi.ScopeResolver.Traces.{
  Traces, Traces-bind, Traces-begin_write, Traces-call, Traces-run_before_hook,
  Traces-run_after_hook, All-emitted, >>=-eq-ok,
}
use davepi.ScopeResolver.Bypass.{IsBypass, bypass_for-IsBypass}
use davepi.ScopeResolver.Results.{emit_for_mutation, events_of, project_result}
use davepi.ScopeResolver.Filter.{bypass_for, writable_payload}
use davepi.ScopeResolver.ById.{
  ownership_query, or_not_found, before_hook, after_hook, current_for, strip, prepare_payload,
  skip_payload, emit_by_id, record_out, wrap_by_id_mutation, is_write, wrap_state_transition,
}

-- The query asks for the id, and for the caller as the owner unless the bypass applies.
abbrev pub IsOwnersQuery : Type 0 → Option User → Value → Object → Type 0
IsOwnersQuery Bypass user id q =
    (has_own "_id" q ≡ true)
    × (get "_id" q ≡ id)
    × (Bypass ⊎ ((has_own "userId" q ≡ true) × (get "userId" q ≡ id_of user)))

-- Such a query found the record.
abbrev pub FoundOwn : (Object → Option Object) → Type 0 → Option User → Value → Object → Type 0
FoundOwn find_one Bypass user id r =
    (q : Object) × IsOwnersQuery Bypass user id q × (find_one q ≡ some r)

-- The database holds a record with this id that is the caller's, or that the bypass opens.
abbrev pub IsAuthorised : (Object → Option Object) → Type 0 → Option User → Value → Type 0
IsAuthorised find_one Bypass user id = (r : Object) × FoundOwn find_one Bypass user id r

ownership_query-IsOwnersQuery :
    (Bypass : Type 0) (bypass : Bool) (user : Option User) (id user_id : Value)
    → (bypass ≡ true → Bypass)
    → user_id ≡ id_of user
    → IsOwnersQuery Bypass user id (ownership_query bypass id user_id)
unfolding get has_own
ownership_query-IsOwnersQuery Bypass true user id user_id b e = (refl, refl, inl (b refl))
ownership_query-IsOwnersQuery Bypass false user id user_id b e = (refl, refl, inr (refl, e))

abbrev pub KeepsOwner : Value → Type 0
KeepsOwner payload = (o : Object) → payload ≡ obj o → IsUnowned o

strip-KeepsOwner : (v : Value) → KeepsOwner (strip v)
strip-KeepsOwner (obj t) o e = subst IsUnowned (cc) (strip_tenant_fields-IsUnowned t).0
strip-KeepsOwner undefined o e = cc
strip-KeepsOwner null o e = cc
strip-KeepsOwner (bool b) o e = cc
strip-KeepsOwner (num n) o e = cc
strip-KeepsOwner (str s) o e = cc
strip-KeepsOwner (arr vs) o e = cc

module _ (action : Option Action) (kind : Kind) (schema : Schema) (user : Option User) where
  skip_payload-same :
      (kind' : Kind) (current v w : Value)
      → (skip_payload action kind' schema user current v).outcome ≡ ok w
      → v ≡ w
  unfolding skip_payload
  skip_payload-same delete current v w e =
      let (input, h, same) =
        >>=-eq-ok
          (run_before_hook (before_hook action delete schema).0 (before_hook action delete schema).1
            (record { input = null; current = current; user = user }))
          (λ _. pure v) e in
      cc
  skip_payload-same read current v w e = cc
  skip_payload-same write current v w e = cc

  skipped-KeepsOwner :
      (current v w : Value)
      → ((o : Object) → v ≢ obj o)
      → (skip_payload action kind schema user current v).outcome ≡ ok w
      → KeepsOwner w
  skipped-KeepsOwner current v w n e o h = absurd (n o (skip_payload-same kind current v w e ∙ h))

  prepare_payload-KeepsOwner :
      (user_id current v w : Value)
      → (prepare_payload action kind schema user user_id current v).outcome ≡ ok w
      → KeepsOwner w
  unfolding prepare_payload
  prepare_payload-KeepsOwner user_id current (obj payload) w e =
      let (input, h, same) =
        >>=-eq-ok
          (run_before_hook (before_hook action kind schema).0 (before_hook action kind schema).1
            (record {
              input = obj (overlay_stamped user_id (writable_payload action schema user payload));
              current = current;
              user = user;
            }))
          (λ v. pure (strip v)) e in
      subst KeepsOwner (cc) (strip-KeepsOwner input)
  prepare_payload-KeepsOwner user_id current v w e = skipped-KeepsOwner current v w (λ o. cc) e

  Traces-skip_payload :
      (P : Effect → Type 0) (kind' : Kind) (current v : Value)
      → ((name : String) (ctx : HookContext) → P (hooked name ctx))
      → Traces P (skip_payload action kind' schema user current v)
  unfolding skip_payload
  Traces-skip_payload P delete current v h =
      Traces-bind P (run_before_hook _ _ _) _ (Traces-run_before_hook P _ _ _ (h _ _)) λ _ _. tt
  Traces-skip_payload P read current v h = tt
  Traces-skip_payload P write current v h = tt

  Traces-prepare_payload :
      (P : Effect → Type 0) (user_id current v : Value)
      → ((name : String) (ctx : HookContext) → P (hooked name ctx))
      → Traces P (prepare_payload action kind schema user user_id current v)
  unfolding prepare_payload
  Traces-prepare_payload P user_id current (obj payload) h =
      Traces-bind P (run_before_hook _ _ _) _ (Traces-run_before_hook P _ _ _ (h _ _)) λ _ _. tt
  Traces-prepare_payload P user_id current v h = Traces-skip_payload P kind current v h

module _ (find_one : Object → Option Object) (schema : Schema) where
  -- A call of the wrapped resolver comes after the lookup found the caller's record, and its payload
  -- names no owner; each lookup is for that record.
  abbrev pub IsOwnersUpdate : Kind → Request → Effect → Type 0
  IsOwnersUpdate kind rp (resolved args) =
      KeepsOwner args.payload
      × IsAuthorised find_one (IsBypass kind schema rp.user) rp.user rp.args.id
  IsOwnersUpdate kind rp (looked_up q) =
      IsOwnersQuery (IsBypass kind schema rp.user) rp.user rp.args.id q
  IsOwnersUpdate kind rp (transitioned r to) = ⊥
  IsOwnersUpdate kind rp _ = Unit

or_not_found-eq-ok : (o : Option Object) (r : Object) → or_not_found o ≡ ok r → o ≡ some r
or_not_found-eq-ok none r e = cc
or_not_found-eq-ok (some x) r e = cc

emit_by_id-Traces :
    (P : Effect → Type 0) (action : Option Action) (kind : Kind) (schema : Schema)
    (user : Option User) (result : Value)
    → ((e : Event) → P (emitted e))
    → Traces P (emit_by_id action kind schema user result)
unfolding emit_for_mutation
emit_by_id-Traces P (some update) kind schema user result h =
    All-emitted P (events_of schema user "updated" result) h
emit_by_id-Traces P (some create) delete schema user result h =
    All-emitted P (events_of schema user "deleted" result) h
emit_by_id-Traces P none delete schema user result h =
    All-emitted P (events_of schema user "deleted" result) h
emit_by_id-Traces P (some create) read schema user result h = tt
emit_by_id-Traces P (some create) write schema user result h = tt
emit_by_id-Traces P none read schema user result h = tt
emit_by_id-Traces P none write schema user result h = tt

-- `wrapByIdMutation` looks the record up by its id under the caller's ownership, or under its id alone
-- where the bypass applies, and calls the wrapped resolver only if it was found, with a payload that
-- names no owner whatever the caller sent and a hook returned.
pub wrap_by_id_mutation-IsOwnersUpdate :
    (find_one : Object → Option Object) (schema : Schema) (next : Args → Outcome Value)
    (action : Option Action) (kind : Kind) (rp : Request)
    → Traces
        (IsOwnersUpdate find_one schema kind rp)
        (wrap_by_id_mutation find_one schema next action kind rp)
unfolding wrap_by_id_mutation
wrap_by_id_mutation-IsOwnersUpdate find_one schema next action kind rp =
    Traces-begin_write P rp.user _ λ user_id is_user has_id.
      Traces-call P (looked_up (query user_id)) (or_not_found (find_one (query user_id))) _
        (aimed user_id is_user)
        λ found is_found.
          let current = current_for action kind schema found in
          Traces-bind P (prepare_payload action kind schema rp.user user_id current rp.args.payload)
            _
            (Traces-prepare_payload action kind schema rp.user P user_id current rp.args.payload
              (λ name ctx. tt))
            λ payload prepared.
              let args = record rp.args { payload = payload } in
              Traces-call P (resolved args) (next args) _
                (
                  prepare_payload-KeepsOwner action kind schema rp.user user_id current
                      rp.args.payload payload prepared,
                  (
                    found,
                    (query user_id, aimed user_id is_user, or_not_found-eq-ok _ found is_found),
                  ),
                )
                λ result _.
                  Traces-bind P (emit_by_id action kind schema rp.user result) _
                    (emit_by_id-Traces P action kind schema rp.user result (λ e. tt))
                    λ _ _.
                      Traces-bind P (after (project_result schema rp.user result) current) _
                        (Traces-run_after_hook P _ _ _ tt) λ _ _. tt
  where
    P : Effect → Type 0
    P = IsOwnersUpdate find_one schema kind rp

    query : Value → Object
    query user_id = ownership_query (bypass_for kind schema rp.user) rp.args.id user_id

    aimed :
        (user_id : Value)
        → user_id ≡ id_of rp.user
        → IsOwnersQuery (IsBypass kind schema rp.user) rp.user rp.args.id (query user_id)
    aimed user_id e =
        ownership_query-IsOwnersQuery (IsBypass kind schema rp.user)
          (bypass_for kind schema rp.user) rp.user rp.args.id user_id
          (bypass_for-IsBypass kind schema rp.user) e

    after : Value → Value → Run (Unit {0})
    after projected current =
        run_after_hook (after_hook action kind schema).0 (after_hook action kind schema).1
          (record { input = record_out projected; current = current; user = rp.user })

module _ (find_one : Object → Option Object) (schema : Schema) (kind : Kind) (user : Option User)
    (id to : Value) where
  abbrev pub transition_bypass : Bool
  transition_bypass = is_write kind && bypass_user_scope_for_write schema user

  -- The write bypass, in a transition of a write.
  abbrev pub IsTransitionBypass : Type 0
  IsTransitionBypass = (is_write kind ≡ true) × IsBypass write schema user

  transition_bypass-IsTransitionBypass : transition_bypass ≡ true → IsTransitionBypass
  transition_bypass-IsTransitionBypass h =
      (ground arith, bypass_for-IsBypass write schema user (unfold bypass_for in ground arith))

  -- The runner gets the record that the lookup found under the caller's ownership, and the target state.
  abbrev pub IsOwnersTransition : Effect → Type 0
  IsOwnersTransition (transitioned r to') =
      FoundOwn find_one IsTransitionBypass user id r × (to' ≡ to)
  IsOwnersTransition (looked_up q) = IsOwnersQuery IsTransitionBypass user id q
  IsOwnersTransition _ = ⊥

-- `wrapStateTransition` runs a transition only on the record that it found by its id under the caller's
-- ownership, or under its id alone where the write bypass applies; it has no other effect.
pub wrap_state_transition-IsOwnersTransition :
    (find_one : Object → Option Object) (schema : Schema)
    (runner : Option User → Object → Value → Outcome Value) (kind : Kind) (user : Option User)
    (id to : Value)
    → Traces
        (IsOwnersTransition find_one schema kind user id to)
        (wrap_state_transition find_one schema runner kind user id to)
unfolding wrap_state_transition
wrap_state_transition-IsOwnersTransition find_one schema runner kind user id to =
    Traces-begin_write P user _ λ user_id is_user has_id.
      Traces-call P (looked_up (query user_id)) (or_not_found (find_one (query user_id))) _
        (aimed user_id is_user)
        λ found is_found.
          Traces-call P (transitioned found to) (runner user found to) _
            ((query user_id, aimed user_id is_user, or_not_found-eq-ok _ found is_found), refl)
            λ _ _. tt
  where
    P : Effect → Type 0
    P = IsOwnersTransition find_one schema kind user id to

    query : Value → Object
    query user_id = ownership_query (transition_bypass find_one schema kind user id to) id user_id

    aimed :
        (user_id : Value)
        → user_id ≡ id_of user
        → IsOwnersQuery (IsTransitionBypass find_one schema kind user id to) user id (query user_id)
    aimed user_id e =
        ownership_query-IsOwnersQuery (IsTransitionBypass find_one schema kind user id to)
          (transition_bypass find_one schema kind user id to) user id user_id
          (transition_bypass-IsTransitionBypass find_one schema kind user id to) e
