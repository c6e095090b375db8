-- ===== src/Program.antt =====
-- Programs that ask the world outside them: a command, and what the program does with any answer to it.
-- The handlers of utils/schemaLoader.js, utils/webhookDispatcher.js and utils/migrations/runner.js are
-- such programs; `await` on the database, a hook or a delivery is a command.
use davepi.Base.{Bool, List, [], false, inl, inr, suc, true, zero, ℕ, ◌∷◌, ◌≡◌, ◌⊎◌}

-- A program over the commands `C`, the answers `R` and the errors `E`.
pub data Program (C : Type 0) (R : C → Type 0) (E A : Type 0) : Type 0 where
  done : A → Program C R E A
  failed : E → Program C R E A
  ask : (c : C) → (R c → Program C R E A) → Program C R E A

-- A command that was answered.
abbrev pub Answered : (C : Type 0) → (C → Type 0) → Type 0
Answered C R = (c : C) × R c

-- The command was given, and this was its answer.
abbrev pub Happened : {C : Type 0} {R : C → Type 0} (c : C) → R c → List (Answered C R) → Type 0
Happened c r [] = ⊥
Happened c r (e ∷ past) = (e ≡ (c, r)) ⊎ Happened c r past

-- What is left of `n`, after one was taken or none.
abbrev pub Allowance : Bool → (ℕ → Type 0) → ℕ → Type 0
Allowance true P zero = ⊥
Allowance true P (suc n) = P n
Allowance false P n = P n

module _ {C : Type 0} {R : C → Type 0} {E : Type 0} where
  infixl 5 ◌>>=◌ ◌>>◌
  abbrev pub ◌>>=◌ : {A B : Type 0} → Program C R E A → (A → Program C R E B) → Program C R E B
  done a >>= f = f a
  failed e >>= f = failed e
  ask c k >>= f = ask c (λ r. k r >>= f)

  abbrev pub ◌>>◌ : {B : Type 0} → Program C R E (Unit {0}) → Program C R E B → Program C R E B
  p >> q = p >>= λ _. q

  -- A single command.
  abbrev pub call : (c : C) → Program C R E (R c)
  call c = ask c done

  -- After the answered commands `past`, the latest first, each command satisfies `P` with the commands
  -- before it, and what the program returns satisfies `Q`, whatever the answers are.
  abbrev pub Ensures :
      {A : Type 0}
      → (List (Answered C R) → C → Type 0)
      → (List (Answered C R) → A → Type 0)
      → List (Answered C R)
      → Program C R E A
      → Type 0
  Ensures P Q past (done a) = Q past a
  Ensures P Q past (failed e) = Unit
  Ensures P Q past (ask c k) = P past c × ((r : R c) → Ensures P Q ((c, r) ∷ past) (k r))

  -- Every run of the program returns, with a value that satisfies `Q`.
  abbrev pub Returns : {A : Type 0} → (A → Type 0) → Program C R E A → Type 0
  Returns Q (done a) = Q a
  Returns Q (failed e) = ⊥
  Returns Q (ask c k) = (r : R c) → Returns Q (k r)

  -- No run of the program has more than `n` commands that the test picks.
  abbrev pub Within : {A : Type 0} → (C → Bool) → Program C R E A → ℕ → Type 0
  Within test (done a) n = Unit
  Within test (failed e) n = Unit
  Within test (ask c k) n = Allowance (test c) (λ m. (r : R c) → Within test (k r) m) n

  -- The commands of a program, and its end, where each command gets the answer of a function.
  unfoldable pub commands : {A : Type 0} → ((c : C) → R c) → Program C R E A → List C
  commands answer (done a) = []
  commands answer (failed e) = []
  commands answer (ask c k) = c ∷ commands answer (k (answer c))

  unfoldable pub ending : {A : Type 0} → ((c : C) → R c) → Program C R E A → E ⊎ A
  ending answer (done a) = inr a
  ending answer (failed e) = inl e
  ending answer (ask c k) = ending answer (k (answer c))

module _ {C : Type 0} {R : C → Type 0} {E : Type 0} (P : List (Answered C R) → C → Type 0) where
  -- The rest of a program starts from what its first part returned, after the commands of that part.
  pub Ensures-bind :
      {A B : Type 0} (Q : List (Answered C R) → A → Type 0) (S : List (Answered C R) → B → Type 0)
      (past : List (Answered C R)) (p : Program C R E A) (f : A → Program C R E B)
      → Ensures P Q past p
      → ((after : List (Answered C R)) (a : A) → Q after a → Ensures P S after (f a))
      → Ensures P S past (p >>= f)
  Ensures-bind Q S past (done a) f h rest = rest past a h
  Ensures-bind Q S past (failed e) f h rest = tt
  Ensures-bind Q S past (ask c k) f h rest =
      (h.0, λ r. Ensures-bind Q S ((c, r) ∷ past) (k r) f (h.1 r) rest)

  -- What is returned may be said to satisfy less.
  pub Ensures-weaken :
      {A : Type 0} (Q S : List (Answered C R) → A → Type 0) (past : List (Answered C R))
      (p : Program C R E A)
      → Ensures P Q past p
      → ((after : List (Answered C R)) (a : A) → Q after a → S after a)
      → Ensures P S past p
  Ensures-weaken Q S past (done a) h weaker = weaker past a h
  Ensures-weaken Q S past (failed e) h weaker = tt
  Ensures-weaken Q S past (ask c k) h weaker =
      (h.0, λ r. Ensures-weaken Q S ((c, r) ∷ past) (k r) (h.1 r) weaker)

Allowance-suc :
    (b : Bool) (P : ℕ → Type 0) (n : ℕ)
    → Allowance b P n
    → ((m : ℕ) → P m → P (suc m))
    → Allowance b P (suc n)
Allowance-suc true P zero h up = absurd h
Allowance-suc true P (suc n) h up = up n h
Allowance-suc false P n h up = up n h

module _ {C : Type 0} {R : C → Type 0} {E : Type 0} where
  pub Returns-bind :
      {A B : Type 0} (Q : A → Type 0) (S : B → Type 0) (p : Program C R E A)
      (f : A → Program C R E B)
      → Returns Q p
      → ((a : A) → Q a → Returns S (f a))
      → Returns S (p >>= f)
  Returns-bind Q S (done a) f h rest = rest a h
  Returns-bind Q S (failed e) f h rest = absurd h
  Returns-bind Q S (ask c k) f h rest = λ r. Returns-bind Q S (k r) f (h r) rest

  pub Within-suc :
      {A : Type 0} (test : C → Bool) (p : Program C R E A) (n : ℕ)
      → Within test p n
      → Within test p (suc n)
  Within-suc test (done a) n h = tt
  Within-suc test (failed e) n h = tt
  Within-suc test (ask c k) n h =
      Allowance-suc (test c) (λ m. (r : R c) → Within test (k r) m) n h
        λ m h' r. Within-suc test (k r) m (h' r)
