-- ===== src/StateMachine/Moves.antt =====
-- stateMachine.js: which moves `validateTransition` accepts, and the states that accepted moves can reach.
use davepi.Base.{
  Bool, Bool-cases, List, String, [], ap, arith, eq_iff, eq_refl, false, includes, inl, inr, refl,
  sym, true, ◌↔◌, ◌∙◌, ◌∷◌, ◌≡◌,
}
use davepi.Js.{Value, undefined, null, bool, num, str, arr, obj, strict_eq}
use davepi.Schema.{StateMachine}
use davepi.StateMachine.{
  is_absent, includes_value, targets_from, valid, invalid, Rejection, invalid_transition,
  validate_transition, compute_available_transitions,
}

-- The moves that a machine declares: into the initial state from no state, and along a transition.
pub data Move (sm : StateMachine) : Value → Value → Type 0 where
  begin :
      {current : Value} {next : Value}
      → is_absent current ≡ true
      → next ≡ str sm.initial
      → Move sm current next
  follow :
      {current : Value} {next : Value} (s : String)
      → is_absent current ≡ false
      → next ≡ str s
      → includes (targets_from sm current) s ≡ true
      → Move sm current next

strict_eq-str : (v : Value) (s : String) → strict_eq v (str s) ≡ true → v ≡ str s
unfolding strict_eq
strict_eq-str (str t) s h = ground (arith, eq_iff t s)
strict_eq-str undefined s h = cc
strict_eq-str null s h = cc
strict_eq-str (bool true) s h = cc
strict_eq-str (bool false) s h = cc
strict_eq-str (num n) s h = cc
strict_eq-str (arr vs) s h = cc
strict_eq-str (obj o) s h = cc

includes_value-str :
    (ts : List String) (v : Value)
    → includes_value ts v ≡ true
    → (s : String) × (v ≡ str s) × (includes ts s ≡ true)
unfolding includes_value
includes_value-str ts (str s) h = (s, refl, h)
includes_value-str ts undefined h = cc
includes_value-str ts null h = cc
includes_value-str ts (bool b) h = cc
includes_value-str ts (num n) h = cc
includes_value-str ts (arr vs) h = cc
includes_value-str ts (obj o) h = cc

-- A transition that is accepted leads to a listed state by a declared move.
pub validate_transition_sound :
    (name : String) (sm : StateMachine) (current next : Value)
    → validate_transition name sm current next ≡ valid true
    → (includes_value sm.states next ≡ true) × Move sm current next
unfolding validate_transition
validate_transition_sound name sm current next h = (
  ground arith,
  elim (Bool-cases (is_absent current)) [
    | inl a ↦ begin a (strict_eq-str next sm.initial (ground arith))
    | inr p ↦
        let (s, e, i) = includes_value-str (targets_from sm current) next (ground arith) in
        follow s p e i
  ],
)

-- Every declared move to another, listed state is accepted.
pub validate_transition_complete :
    (name : String) (sm : StateMachine) (current next : Value)
    → strict_eq current next ≡ false
    → includes_value sm.states next ≡ true
    → Move sm current next
    → validate_transition name sm current next ≡ valid true
unfolding validate_transition includes_value strict_eq
validate_transition_complete name sm current next d l (begin a e) =
    ground (arith, eq_refl sm.initial, ap (λ v. strict_eq v (str sm.initial)) e)
validate_transition_complete name sm current next d l (follow s p e i) =
    ground (arith, ap (λ v. includes_value (targets_from sm current) v) e)

strict_eq-initial : (v : Value) (s : String) → strict_eq v (str s) ≡ includes_value (s ∷ []) v
unfolding strict_eq includes_value
strict_eq-initial (str t) s = ground (arith, eq_iff t s, eq_iff s t)
strict_eq-initial undefined s = refl
strict_eq-initial null s = refl
strict_eq-initial (bool true) s = refl
strict_eq-initial (bool false) s = refl
strict_eq-initial (num n) s = refl
strict_eq-initial (arr vs) s = refl
strict_eq-initial (obj o) s = refl

-- `computeAvailableTransitions` lists, of the states of the machine other than the current one, exactly
-- those to which `validateTransition` accepts a transition.
pub available-validate_transition :
    (name : String) (sm : StateMachine) (current next : Value)
    → strict_eq current next ≡ false
    → includes_value sm.states next ≡ true
    → (validate_transition name sm current next ≡ valid true)
      ↔ (includes_value (compute_available_transitions sm current) next ≡ true)
unfolding validate_transition compute_available_transitions
available-validate_transition name sm current next d l = (
  λ h. ground (arith, strict_eq-initial next sm.initial),
  λ h. ground (arith, strict_eq-initial next sm.initial),
)

-- A rejection reports the attempted state, and no state that it reports as allowed is the attempted one;
-- for an undeclared transition the allowed states are the available ones.
pub validate_transition-rejection :
    (name : String) (sm : StateMachine) (current next : Value) (r : Rejection)
    → validate_transition name sm current next ≡ invalid r
    → (r.attempted ≡ next)
      × (includes_value r.allowed next ≡ false)
      × (r.reason ≡ invalid_transition → r.allowed ≡ compute_available_transitions sm current)
unfolding validate_transition compute_available_transitions
validate_transition-rejection name sm current next r h =
    (ground arith, ground (arith, strict_eq-initial next sm.initial), λ e. ground arith)

str-strict_eq : (s : String) (v : Value) → strict_eq (str s) v ≡ true → v ≡ str s
unfolding strict_eq
str-strict_eq s (str t) h = ground (arith, eq_iff s t)
str-strict_eq s undefined h = cc
str-strict_eq s null h = cc
str-strict_eq s (bool b) h = cc
str-strict_eq s (num n) h = cc
str-strict_eq s (arr vs) h = cc
str-strict_eq s (obj o) h = cc

-- The values that a state field comes to by validated updates: the initial state, and what an update that
-- `validateTransition` accepted writes over such a value.
pub data Reach (name : String) (sm : StateMachine) : Value → Type 0 where
  created : Reach name sm (str sm.initial)
  updated :
      {current : Value} {next : Value} (transition : Bool)
      → Reach name sm current
      → validate_transition name sm current next ≡ valid transition
      → Reach name sm next

accepted-listed :
    (name : String) (sm : StateMachine) (current next : Value) (transition : Bool)
    → includes_value sm.states current ≡ true
    → validate_transition name sm current next ≡ valid transition
    → includes_value sm.states next ≡ true
unfolding validate_transition
accepted-listed name sm current next transition l h = elim (Bool-cases (strict_eq current next)) [
  | inl e ↦
      let (s, same, i) = includes_value-str sm.states current l in
      let back : next ≡ str s =
        str-strict_eq s next (ground (arith, ap (λ v. strict_eq v next) same)) in
      ground (arith, ap (λ v. includes_value sm.states v) (back ∙ sym same))
  | inr d ↦ ground arith
]

-- If the initial state is listed, every state that a field comes to by updates which `validateTransition`
-- accepted, from the initial state on, is listed. A write that does not ask `validateTransition` is not
-- such an update.
pub Reach-listed :
    (name : String) (sm : StateMachine) (v : Value)
    → includes sm.states sm.initial ≡ true
    → Reach name sm v
    → includes_value sm.states v ≡ true
unfolding includes_value
Reach-listed name sm v h created = h
Reach-listed name sm v h (updated {current} transition r e) =
    accepted-listed name sm current v transition (Reach-listed name sm current h r) e
