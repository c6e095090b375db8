-- ===== src/Rest/Steps.antt =====
-- The steps that the handlers share: what they ensure of the commands that they give.
use davepi.Base.{Bool, List, Option, String, false, if◌then◌else◌, inr, none, refl, some, true, ◌≡◌}
use davepi.Js.{Value, Object, undefined, null, bool, num, str, arr, obj}
use davepi.Schema.{Hook, HookContext, HookResult, threw, returned}
pub use davepi.Program.{Happened}
use davepi.Program.{Answered, Ensures, ask, done, ◌>>=◌}
use davepi.Rest.{
  Resource, Command, Answer, Error, Handler, AuditEntry, record_audit, run_hook, found_or_404,
  hook_answer, run_before, run_after, audit,
}

abbrev pub Past : Type 0
Past = List (Answered Command Answer)

-- Nothing is said of what is returned.
abbrev pub Anything : {A : Type 0} → Past → A → Type 0
Anything past a = Unit

-- What happened stays so.
abbrev pub Later : Past → Past → Type 0
Later past after = (c : Command) (r : Answer c) → Happened c r past → Happened c r after

-- In each lemma, `f` is the rest of a handler behind the step.
module _ {A : Type 0} (P : Past → Command → Type 0) (S : Past → A → Type 0) (past : Past) where
  -- The rest is run for a record that was found.
  pub found_or_404-Ensures :
      (s : Resource) (answer : Option Object) (f : Object → Handler A)
      → ((found : Object) → answer ≡ some found → Ensures P S past (f found))
      → Ensures P S past (found_or_404 s answer >>= f)
  unfolding found_or_404
  found_or_404-Ensures s none f h = tt
  found_or_404-Ensures s (some o) f h = h o refl

  pub hook_answer-Ensures :
      (input : Value) (result : HookResult) (f : Value → Handler A)
      → ((v : Value) → Ensures P S past (f v))
      → Ensures P S past (hook_answer input result >>= f)
  hook_answer-Ensures input (threw message) f h = tt
  hook_answer-Ensures input (returned undefined) f h = h input
  hook_answer-Ensures input (returned null) f h = h null
  hook_answer-Ensures input (returned (bool b)) f h = h (bool b)
  hook_answer-Ensures input (returned (num n)) f h = h (num n)
  hook_answer-Ensures input (returned (str s)) f h = h (str s)
  hook_answer-Ensures input (returned (arr vs)) f h = h (arr vs)
  hook_answer-Ensures input (returned (obj o)) f h = h (obj o)

module _ {A : Type 0} (P : Past → Command → Type 0) (S : Past → A → Type 0) (past : Past) where
  pub run_before-Ensures :
      (name : String) (hook : Option Hook) (ctx : HookContext) (f : Value → Handler A)
      → P past (run_hook name ctx)
      → ((after : Past) → Later past after → (v : Value) → Ensures P S after (f v))
      → Ensures P S past (run_before name hook ctx >>= f)
  run_before-Ensures name none ctx f p h = h past (λ c r e. e) ctx.input
  run_before-Ensures name (some hook) ctx f p h =
      (p, λ r. hook_answer-Ensures P S _ ctx.input r f (h _ (λ c r' e. inr e)))

  pub run_after-Ensures :
      (name : String) (hook : Option Hook) (ctx : HookContext) (f : Unit {0} → Handler A)
      → P past (run_hook name ctx)
      → ((after : Past) → Later past after → Ensures P S after (f tt))
      → Ensures P S past (run_after name hook ctx >>= f)
  run_after-Ensures name none ctx f p h = h past (λ c r e. e)
  run_after-Ensures name (some hook) ctx f p h = (p, λ r. h _ (λ c r' e. inr e))

  pub call_if-Ensures :
      (on : Bool) (c : Command) (f : Unit {0} → Handler A) (step : Answer c → Unit {0})
      → (on ≡ true → P past c)
      → ((after : Past) → Later past after → Ensures P S after (f tt))
      → Ensures {E = Error} P S past ((if on then ask c (λ r. done (step r)) else done tt) >>= f)
  call_if-Ensures true c f step p h = (p refl, λ r. h _ (λ c' r' e. inr e))
  call_if-Ensures false c f step p h = h past (λ c' r' e. e)

  pub if-Ensures :
      (on : Bool) (p q : Handler A)
      → (on ≡ true → Ensures P S past p)
      → (on ≡ false → Ensures P S past q)
      → Ensures P S past (if on then p else q)
  if-Ensures true p q h k = h refl
  if-Ensures false p q h k = k refl

  pub branch-Ensures :
      {B : Type 0} (on : Bool) (p q : Handler B) (f : B → Handler A)
      → (on ≡ true → Ensures P S past (p >>= f))
      → (on ≡ false → Ensures P S past (q >>= f))
      → Ensures P S past ((if on then p else q) >>= f)
  branch-Ensures true p q f h k = h refl
  branch-Ensures false p q f h k = k refl

  pub audit-Ensures :
      (s : Resource) (entry : AuditEntry) (f : Unit {0} → Handler A)
      → P past (record_audit entry)
      → ((after : Past) → Later past after → Ensures P S after (f tt))
      → Ensures P S past (audit s entry >>= f)
  audit-Ensures s entry f p h =
      call_if-Ensures s.audit_enabled (record_audit entry) f (λ r. r) (λ _. p) h
