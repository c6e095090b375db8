-- ===== src/ScopeResolver/Traces.antt =====
-- Statements about every effect of a computation, proved step by step.
use davepi.Base.{All, List, Option, String, [], arith, map, none, refl, some, true, ◌++◌, ◌∷◌, ◌≡◌}
use davepi.Js.{Value}
use davepi.Schema.{User, Hook, HookContext}
use davepi.Js.{truthy}
use davepi.Acl.{id_of}
use davepi.ScopeResolver.{
  Outcome, ok, failed, Event, Effect, hooked, emitted, Run, perform, continue, ◌>>=◌, require_user,
  require_scope, refuse_client_write, run_before_hook, run_after_hook, ◌>>◌,
}

module _ {ℓ} (P : Effect → Type ℓ) where
  pub All-append : (xs ys : List Effect) → All P xs → All P ys → All P (xs ++ ys)
  All-append [] ys h k = k
  All-append (x ∷ xs) ys h k = (h.0, All-append xs ys h.1 k)

  -- Every effect satisfies `P`.
  abbrev pub Traces : {A : Type 0} → Run A → Type ℓ
  Traces m = All P m.effects

  -- After a first step, the rest is run on what the step returned.
  pub Traces-bind :
      {A B : Type 0} (m : Run A) (f : A → Run B)
      → Traces m
      → ((a : A) → m.outcome ≡ ok a → Traces (f a))
      → Traces (m >>= f)
  Traces-bind {A} {B} m f h k = go m.outcome refl
    where
      go : (o : Outcome A) → m.outcome ≡ o → All P (continue {B = B} o m.effects f).effects
      go (ok a) e = All-append m.effects (f a).effects h (k a e)
      go (failed e') e = h

  pub Traces-require_user : (user : Option User) → Traces (require_user user)
  unfolding require_user
  Traces-require_user user = ground arith

  pub Traces-require_scope :
      (user : Option User) (scope : String) → Traces (require_scope user scope)
  unfolding require_scope
  Traces-require_scope user scope = ground arith

  pub Traces-refuse_client_write : (user : Option User) → Traces (refuse_client_write user)
  unfolding refuse_client_write
  Traces-refuse_client_write user = ground arith

  pub Traces-run_before_hook :
      (name : String) (hook : Option Hook) (ctx : HookContext)
      → P (hooked name ctx)
      → Traces (run_before_hook name hook ctx)
  unfolding run_before_hook
  Traces-run_before_hook name none ctx h = tt
  Traces-run_before_hook name (some hook) ctx h = (h, tt)

  pub Traces-run_after_hook :
      (name : String) (hook : Option Hook) (ctx : HookContext)
      → P (hooked name ctx)
      → Traces (run_after_hook name hook ctx)
  unfolding run_after_hook
  Traces-run_after_hook name none ctx h = tt
  Traces-run_after_hook name (some hook) ctx h = (h, tt)

-- Inversion of a computation that returned.
pub >>=-eq-ok :
    {A B : Type 0} (m : Run A) (f : A → Run B) {b : B}
    → (m >>= f).outcome ≡ ok b
    → (a : A) × (m.outcome ≡ ok a) × ((f a).outcome ≡ ok b)
>>=-eq-ok {A} {B} m f {b} h = go m.outcome refl h
  where
    go :
        (o : Outcome A)
        → m.outcome ≡ o
        → (continue {B = B} o m.effects f).outcome ≡ ok b
        → (a : A) × (m.outcome ≡ ok a) × ((f a).outcome ≡ ok b)
    go (ok a) e k = (a, e, k)
    go (failed x) e k = cc

module _ {ℓ} (P : Effect → Type ℓ) where
  pub All-emitted : (es : List Event) → ((e : Event) → P (emitted e)) → All P (map emitted es)
  All-emitted [] h = tt
  All-emitted (e ∷ es) h = (h e, All-emitted es h)

pub require_user-id :
    (user : Option User) (v : Value)
    → (require_user user).outcome ≡ ok v
    → (v ≡ id_of user) × (truthy (id_of user) ≡ true)
unfolding require_user
require_user-id user v h = ground arith

-- The checks with which each write begins, and the rest for the caller that they let through.
abbrev pub begin_write : {B : Type 0} → Option User → (Value → Run B) → Run B
begin_write user k = do
  user_id ← require_user user
  require_scope user "write"
  refuse_client_write user
  k user_id

pub Traces-begin_write {ℓ} :
    (P : Effect → Type ℓ) {B : Type 0} (user : Option User) (k : Value → Run B)
    → ((v : Value) → v ≡ id_of user → truthy (id_of user) ≡ true → Traces P (k v))
    → Traces P (begin_write user k)
Traces-begin_write P user k h =
    Traces-bind P (require_user user) _ (Traces-require_user P user) λ v is_user.
      Traces-bind P (require_scope user "write") _ (Traces-require_scope P user "write") λ _ _.
        Traces-bind P (refuse_client_write user) _ (Traces-refuse_client_write P user)
          λ _ _. h v (require_user-id user v is_user).0 (require_user-id user v is_user).1

-- A call of the wrapped resolver, and what follows it.
pub Traces-call {ℓ} :
    (P : Effect → Type ℓ) {A B : Type 0} (e : Effect) (answer : Outcome A) (k : A → Run B)
    → P e
    → ((a : A) → answer ≡ ok a → Traces P (k a))
    → Traces P (perform e answer >>= k)
Traces-call P e answer k h rest = Traces-bind P (perform e answer) k (h, tt) rest
