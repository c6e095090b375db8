-- ===== src/ScopeResolver/Owner.antt =====
-- scopeResolver.js: who owns what the create wrappers hand to the wrapped resolver.
use davepi.Base.{
  All, Bool-cases, List, Option, String, [], inl, inr, map, some, subst, true, ◌∷◌, ◌≡◌,
}
use davepi.Js.{Value, undefined, null, bool, num, str, arr, obj, Object, truthy}
use davepi.Js.Laws.{get-put}
use davepi.Schema.{User, Schema, Hook, HookContext}
use davepi.Acl.{id_of}
use davepi.Acl.Owner.{IsOwnedBy, stamp_tenant_fields-IsOwnedBy}
use davepi.ScopeResolver.{
  Outcome, Args, Request, Effect, resolved, overlay_stamped, run_before_hook, hook_of,
}
use davepi.ScopeResolver.Traces.{
  Traces, Traces-bind, Traces-begin_write, Traces-call, Traces-run_before_hook,
  Traces-run_after_hook, All-emitted,
}
use davepi.ScopeResolver.Results.{emit_for_mutation, events_of, project_result}
use davepi.ScopeResolver.Create.{
  stamped_create, payload_object, payload_list, restamp, record_of, after_create, wrap_create_one,
  wrap_create_many,
}

-- The payload of a call names the caller as the owner.
abbrev pub CreatesOwned : Option User → Effect → Type 0
CreatesOwned user (resolved args) = (o : Object) → args.payload ≡ obj o → IsOwnedBy (id_of user) o
CreatesOwned user _ = Unit

restamp-IsOwnedBy :
    (user : Option User) (v : Value) (o : Object)
    → truthy (id_of user) ≡ true
    → restamp user v ≡ obj o
    → IsOwnedBy (id_of user) o
restamp-IsOwnedBy user (obj t) o h e =
    subst (IsOwnedBy (id_of user)) (cc) (stamp_tenant_fields-IsOwnedBy t user h).0
restamp-IsOwnedBy user undefined o h e = cc
restamp-IsOwnedBy user null o h e = cc
restamp-IsOwnedBy user (bool b) o h e = cc
restamp-IsOwnedBy user (num n) o h e = cc
restamp-IsOwnedBy user (str s) o h e = cc
restamp-IsOwnedBy user (arr vs) o h e = cc

Traces-after_create :
    (schema : Schema) (user caller : Option User) (projected : Value)
    → Traces (CreatesOwned caller) (after_create schema user projected)
unfolding after_create
Traces-after_create schema user caller projected =
    elim (Bool-cases (truthy (record_of projected))) [
      | inl e ↦ rw e (
          Traces-run_after_hook (CreatesOwned caller) "afterCreate"
            (hook_of (λ h. h.after_create) schema)
            (record { input = record_of projected; current = undefined; user = user }) tt)
      | inr e ↦ rw e tt
    ]

emit-CreatesOwned :
    (schema : Schema) (user caller : Option User) (action : String) (result : Value)
    → Traces (CreatesOwned caller) (emit_for_mutation schema user action result)
unfolding emit_for_mutation
emit-CreatesOwned schema user caller action result =
    All-emitted (CreatesOwned caller) (events_of schema user action result) (λ e. tt)

-- Whatever the payload and whatever a `beforeCreate` hook returns, the record that `wrapCreateOne`
-- hands on names the caller as its owner.
pub wrap_create_one-CreatesOwned :
    (schema : Schema) (next : Args → Outcome Value) (rp : Request)
    → Traces (CreatesOwned rp.user) (wrap_create_one schema next rp)
unfolding wrap_create_one
wrap_create_one-CreatesOwned schema next rp =
    Traces-begin_write P rp.user _ λ user_id is_user has_id.
      Traces-bind P (run_before_hook "beforeCreate" hook (context user_id)) _
        (Traces-run_before_hook P "beforeCreate" hook (context user_id) tt)
        λ input _.
          Traces-call P (resolved (args input)) (next (args input)) _
            (λ o e. restamp-IsOwnedBy rp.user input o has_id e)
            λ result _.
              Traces-bind P (emit_for_mutation schema rp.user "created" result) _
                (emit-CreatesOwned schema rp.user rp.user "created" result)
                λ _ _.
                  Traces-bind P (after_create schema rp.user (project_result schema rp.user result))
                    _
                    (Traces-after_create schema rp.user rp.user
                      (project_result schema rp.user result))
                    λ _ _. tt
  where
    P : Effect → Type 0
    P = CreatesOwned rp.user

    hook : Option Hook
    hook = hook_of (λ h. h.before_create) schema

    context : Value → HookContext
    context user_id = record {
      input = obj (stamped_create schema rp.user user_id (payload_object rp.args.payload));
      current = undefined;
      user = rp.user;
    }

    args : Value → Args
    args input = record rp.args { payload = restamp rp.user input }

-- Every payload of a call names the caller as the owner.
abbrev pub CreatesAllOwned : Option User → Effect → Type 0
CreatesAllOwned user (resolved args) = All (IsOwnedBy (id_of user)) (payload_list args.payloads)
CreatesAllOwned user _ = Unit

overlay_stamped-IsOwnedBy : (v : Value) (o : Object) → IsOwnedBy v (overlay_stamped v o)
overlay_stamped-IsOwnedBy v o = (simp get-put, simp get-put)

stamped-All :
    (schema : Schema) (user : Option User) (v : Value) (os : List Object)
    → All (IsOwnedBy v) (map (stamped_create schema user v) os)
stamped-All schema user v [] = tt
stamped-All schema user v (o ∷ os) = (overlay_stamped-IsOwnedBy v _, stamped-All schema user v os)

-- Each record that `wrapCreateMany` hands on names the caller as its owner.
pub wrap_create_many-CreatesAllOwned :
    (schema : Schema) (next : Args → Outcome Value) (rp : Request)
    → Traces (CreatesAllOwned rp.user) (wrap_create_many schema next rp)
unfolding wrap_create_many
wrap_create_many-CreatesAllOwned schema next rp =
    Traces-begin_write P rp.user _ λ user_id is_user has_id.
      Traces-call P (resolved (args user_id)) (next (args user_id)) _ (called user_id is_user)
        λ result _.
          Traces-bind P (emit_for_mutation schema rp.user "created" result) _
            (unfold emit_for_mutation in
              All-emitted P (events_of schema rp.user "created" result) (λ e. tt))
            λ _ _. tt
  where
    P : Effect → Type 0
    P = CreatesAllOwned rp.user

    args : Value → Args
    args user_id = record rp.args {
      payloads = some (map (stamped_create schema rp.user user_id) (payload_list rp.args.payloads));
    }

    called : (user_id : Value) → user_id ≡ id_of rp.user → P (resolved (args user_id))
    called user_id e = rw (← e) (stamped-All schema rp.user user_id (payload_list rp.args.payloads))
