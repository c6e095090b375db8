-- ===== src/ScopeResolver/Guards.antt =====
-- scopeResolver.js: the checks with which each wrapper begins.
use davepi.Base.{Bool, List, Option, [], arith, false, not, ◌&&◌, ◌≡◌, ◌≢◌}
use davepi.Js.{Value, Object, truthy}
use davepi.Schema.{User, Schema}
use davepi.Acl.{Action, id_of}
use davepi.Scopes.{has_scope}
use davepi.ScopeResolver.{
  Outcome, ok, Args, Request, Run, require_user, require_scope, refuse_client_write, is_client_call,
  Kind, read, write, delete, ◌>>=◌, ◌>>◌,
}
use davepi.ScopeResolver.Traces.{begin_write}
use davepi.ScopeResolver.Filter.{wrap_filter}
use davepi.ScopeResolver.Find.{wrap_aggregation, wrap_find_by_id, wrap_find_by_ids}
use davepi.ScopeResolver.Create.{wrap_create_one, wrap_create_many}
use davepi.ScopeResolver.ById.{wrap_by_id_mutation, wrap_state_transition}

-- The caller has an id and the scope, and is no client where the call writes.
abbrev pub may : Kind → Option User → Bool
may read user = truthy (id_of user) && has_scope user "read"
may _ user = truthy (id_of user) && has_scope user "write" && not (is_client_call user)

-- The call failed, and touched nothing.
abbrev pub IsRefused : {A : Type 0} → Run A → Type 0
IsRefused {A} m = (m.effects ≡ []) × ((a : A) → m.outcome ≢ ok a)

begin_write-IsRefused :
    {B : Type 0} (user : Option User) (k : Value → Run B)
    → may write user ≡ false
    → IsRefused (begin_write user k)
unfolding require_user require_scope refuse_client_write
begin_write-IsRefused user k h = (ground arith, λ a e. ground arith)

begin_read-IsRefused :
    {B : Type 0} (user : Option User) (k : Value → Run B)
    → may read user ≡ false
    → IsRefused (do user_id ← require_user user; require_scope user "read"; k user_id)
unfolding require_user require_scope
begin_read-IsRefused user k h = (ground arith, λ a e. ground arith)

module _ (schema : Schema) (next : Args → Outcome Value) (find_one : Object → Option Object)
    (runner : Option User → Object → Value → Outcome Value) (rp : Request) where
  -- A caller who may not write gets no write wrapper to do anything, with the filter wrapper of writes and of
  -- deletes among them: each fails before any lookup, hook,
  -- resolver call or event.
  pub writes-IsRefused :
      (action : Option Action) (kind : Kind) (to : Value)
      → may write rp.user ≡ false
      → IsRefused (wrap_create_one schema next rp)
        × IsRefused (wrap_create_many schema next rp)
        × IsRefused (wrap_by_id_mutation find_one schema next action kind rp)
        × IsRefused (wrap_state_transition find_one schema runner kind rp.user rp.args.id to)
        × IsRefused (wrap_filter schema next action write rp)
        × IsRefused (wrap_filter schema next action delete rp)
  unfolding wrap_create_one wrap_create_many wrap_by_id_mutation wrap_state_transition wrap_filter
  writes-IsRefused action kind to h = (
    begin_write-IsRefused rp.user _ h,
    begin_write-IsRefused rp.user _ h,
    begin_write-IsRefused rp.user _ h,
    begin_write-IsRefused rp.user _ h,
    begin_write-IsRefused rp.user _ h,
    begin_write-IsRefused rp.user _ h,
  )

  -- A caller who may not read gets nothing from the lookups by id and from an aggregation: each fails and
  -- calls nothing.
  pub reads-IsRefused :
      (many : Args → Outcome (List Object)) (one : Args → Outcome (Option Object))
      (aggregate : Option User → Value → Outcome Value) (params : Value)
      → may read rp.user ≡ false
      → IsRefused (wrap_find_by_id schema one rp)
        × IsRefused (wrap_find_by_ids schema many rp)
        × IsRefused (wrap_aggregation aggregate rp.user params)
  unfolding wrap_find_by_id wrap_find_by_ids wrap_aggregation
  reads-IsRefused many one aggregate params h = (
    begin_read-IsRefused rp.user _ h,
    begin_read-IsRefused rp.user _ h,
    begin_read-IsRefused rp.user _ h,
  )

  -- A caller who lacks what a filter wrapper of a kind asks, an id, the scope and, to write, not to be a
  -- client, gets nothing from it: it fails before the wrapped resolver is called.
  pub wrap_filter-IsRefused :
      (action : Option Action) (kind : Kind)
      → may kind rp.user ≡ false
      → IsRefused (wrap_filter schema next action kind rp)
  unfolding wrap_filter
  wrap_filter-IsRefused action read h = begin_read-IsRefused rp.user _ h
  wrap_filter-IsRefused action write h = begin_write-IsRefused rp.user _ h
  wrap_filter-IsRefused action delete h = begin_write-IsRefused rp.user _ h
