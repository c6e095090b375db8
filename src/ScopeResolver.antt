-- ===== src/ScopeResolver.antt =====
-- utils/scopeResolver.js: the wrappers round the GraphQL resolvers of a resource. A wrapper is a
-- computation that fails or returns, with the list of what it did to the world outside it. What the
-- wrapped resolver, the database and the hooks answer are functions that a wrapper is given.
pub mod Traces
pub mod Results
pub mod Filter
pub mod Find
pub mod Create
pub mod ById
pub mod Bypass
pub mod Isolation
pub mod Owner
pub mod Updates
pub mod Seen
pub mod Guards
use Prim.Native.String
use davepi.Base.{Bool, List, Option, String, [], false, if◌then◌else◌, none, some, ◌++◌, ◌∷◌}
use davepi.Js.{Value, undefined, Object, put, truthy}
use davepi.Schema.{User, HookContext, Hook, HookResult, Hooks, threw, returned, Schema}
use davepi.Acl.{id_of}
use davepi.Scopes.{has_scope}

-- utils/graphqlErrors.js, what a hook throws, and what the wrapped resolver throws
pub data Error : Type 0 where
  authentication_error forbidden_error hook_error resolver_error : String → Error

pub data Outcome {ℓ} (A : Type ℓ) : Type ℓ where
  ok : A → Outcome A
  failed : Error → Outcome A

-- The arguments of a resolver: `rp.args` and `rp.projection`; `payload` is `rp.args.record`, and
-- `payloads` is `rp.args.records`. A payload from the wire is an object or falsy.
pub record Args : Type 0 where
  pub filter : Option Object
  pub search : Value
  pub payload : Value
  pub payloads : Option (List Object)
  pub id : Value
  pub projection : Object

-- `rp`: the caller of the context and the arguments
pub record Request : Type 0 where
  pub user : Option User
  pub args : Args

-- What `emitRecordEvent` is given: of one record, or of a number of records.
pub data Event : Type 0 where
  of_record : (type : String) (user_id record_id shown : Value) → Event
  of_many : (type : String) (user_id num_affected : Value) → Event

-- `Model.findOne(filter)`, a run of a hook, a call of the wrapped resolver, an event on the bus, and a
-- call of the runner of a state transition.
pub data Effect : Type 0 where
  looked_up : Object → Effect
  hooked : String → HookContext → Effect
  resolved : Args → Effect
  emitted : Event → Effect
  transitioned : Object → Value → Effect

pub record Run {ℓ} (A : Type ℓ) : Type ℓ where
  pub outcome : Outcome A
  pub effects : List Effect

abbrev pub pure {ℓ} : {A : Type ℓ} → A → Run A
pure a = record { outcome = ok a; effects = [] }

abbrev pub throw {ℓ} : {A : Type ℓ} → Error → Run A
throw e = record { outcome = failed e; effects = [] }

abbrev pub perform {ℓ} : {A : Type ℓ} → Effect → Outcome A → Run A
perform effect answer = record { outcome = answer; effects = effect ∷ [] }

abbrev pub continue {ℓ κ} :
    {A : Type ℓ} {B : Type κ} → Outcome A → List Effect → (A → Run B) → Run B
continue (ok a) done f = record { outcome = (f a).outcome; effects = done ++ (f a).effects }
continue (failed e) done f = record { outcome = failed e; effects = done }

infixl 5 ◌>>=◌ ◌>>◌
abbrev pub ◌>>=◌ {ℓ κ} : {A : Type ℓ} {B : Type κ} → Run A → (A → Run B) → Run B
m >>= f = continue m.outcome m.effects f

abbrev pub ◌>>◌ {ℓ} : {B : Type ℓ} → Run (Unit {0}) → Run B → Run B
m >> k = m >>= λ _. k

-- `requireUser`
unfoldable pub require_user : Option User → Run Value
require_user user =
    if truthy (id_of user)
    then pure (id_of user)
    else throw (authentication_error "Authentication required")

-- `requireScope`
unfoldable pub require_scope : Option User → String → Run (Unit {0})
require_scope user scope =
    if has_scope user scope
    then pure tt
    else throw (forbidden_error (String.◌++◌ "API key missing required scope: " scope))

abbrev pub is_client_call : Option User → Bool
is_client_call none = false
is_client_call (some user) = user.is_client

-- `refuseClientWrite`
unfoldable pub refuse_client_write : Option User → Run (Unit {0})
refuse_client_write user =
    if is_client_call user
    then throw (forbidden_error "Client-authenticated requests are read-only")
    else pure tt

-- `{ ...o, ...stampedValues(userId) }`
abbrev pub overlay_stamped : Value → Object → Object
overlay_stamped user_id o = put "accountId" user_id (put "userId" user_id o)

-- The hook of a slot; `none` where the schema declares none.
abbrev pub hook_of : (Hooks → Option Hook) → Schema → Option Hook
hook_of slot schema = elim schema.hooks [ none ↦ none | some hooks ↦ slot hooks ]

-- utils/hooks.js: what a `before*` hook makes of its input.
abbrev pub hook_answer : Value → HookResult → Outcome Value
hook_answer input (threw message) = failed (hook_error message)
hook_answer input (returned undefined) = ok input
hook_answer input (returned v) = ok v

-- `runBeforeHook`
unfoldable pub run_before_hook : String → Option Hook → HookContext → Run Value
run_before_hook name none ctx = pure ctx.input
run_before_hook name (some hook) ctx = perform (hooked name ctx) (hook_answer ctx.input (hook ctx))

-- `runAfterHook`, given the record as its input and the previous one as the current one: what the hook throws is logged and dropped.
unfoldable pub run_after_hook : String → Option Hook → HookContext → Run (Unit {0})
run_after_hook name none ctx = pure tt
run_after_hook name (some hook) ctx = perform (hooked name ctx) (ok tt)

-- The slot of a schema's bypass that a wrapper reads.
pub data Kind : Type 0 where
  read write delete : Kind
