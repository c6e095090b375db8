-- ===== src/StateMachine.antt =====
-- utils/stateMachine.js: the transitions of a schema's state fields. A state is a text; a record may
-- hold any value, or none, where a state is expected.
pub mod Moves
pub mod Records
use Prim.Native.String
use davepi.Base.{
  Bool, List, Option, String, [], false, if◌then◌else◌, includes, is_empty, map, none, not, select,
  some, true, ◌==◌, ◌||◌, ◌∷◌,
}
use davepi.Js.{
  Value, undefined, null, str, arr, obj, Object, empty, get, has_own, put, array, strict_eq,
  to_text,
}
use davepi.Schema.{User, StateMachine, Field, Schema}
use davepi.Acl.{can_read_field}

-- `isStateMachineField`, with the field's machine.
unfoldable pub machine_of : Field → Option StateMachine
machine_of f = elim f.state_machine [
  | none ↦ none
  | some sm ↦ if is_empty sm.states then none else some sm
]

unfoldable pub machines : List Field → List (Field × StateMachine)
machines [] = []
machines (f ∷ fs) = elim (machine_of f) [ none ↦ machines fs | some sm ↦ (f, sm) ∷ machines fs ]

-- `stateMachineFieldsOf`
unfoldable pub state_machine_fields_of : Schema → List (Field × StateMachine)
unfolding machines
state_machine_fields_of schema = elim schema.fields [ none ↦ [] | some fields ↦ machines fields ]

-- `current === undefined || current === null || current === ''`
unfoldable pub is_absent : Value → Bool
is_absent undefined = true
is_absent null = true
is_absent (str s) = s == ""
is_absent _ = false

-- `states.includes(next)`
unfoldable pub includes_value : List String → Value → Bool
includes_value states (str s) = includes states s
includes_value states _ = false

targets : List (String × List String) → String → List String
targets [] key = []
targets ((state, next) ∷ rest) key = if state == key then next else targets rest key

-- `sm.transitions[current]`, or no target where it is no array.
unfoldable pub targets_from : StateMachine → Value → List String
unfolding targets
targets_from sm current = targets sm.transitions (to_text current)

-- `texts.join(', ')`
abbrev join_after : String → List String → String
join_after acc [] = acc
join_after acc (t ∷ ts) = join_after (String.◌++◌ (String.◌++◌ acc ", ") t) ts

join_texts : List String → String
join_texts [] = ""
join_texts (t ∷ ts) = join_after t ts

concat : List String → String
concat [] = ""
concat (t ∷ ts) = String.◌++◌ t (concat ts)

pub data Reason : Type 0 where
  unknown_state initial_state_required invalid_transition : Reason

pub record Rejection : Type 0 where
  pub reason : Reason
  pub message : String
  pub current : Value
  pub attempted : Value
  pub allowed : List String

-- `{ valid: true, transition }` or `{ valid: false, ... }`
pub data Verdict : Type 0 where
  valid : (transition : Bool) → Verdict
  invalid : Rejection → Verdict

reject_unknown : StateMachine → Value → Value → Verdict
unfolding concat join_texts
reject_unknown sm current next = invalid (record {
  reason = unknown_state;
  message = concat ("Unknown state '" ∷ to_text next ∷ "'. Allowed: " ∷ join_texts sm.states ∷ []);
  current = current;
  attempted = next;
  allowed = sm.states;
})

enter : String → StateMachine → Value → Verdict
unfolding concat
enter name sm next =
    if strict_eq next (str sm.initial)
    then valid true
    else invalid (record {
      reason = initial_state_required;
      message =
          concat
            ("New " ∷ name ∷ " records must enter via initial state '" ∷ sm.initial ∷ "'" ∷ []);
      current = null;
      attempted = next;
      allowed = sm.initial ∷ [];
    })

move : String → StateMachine → Value → Value → List String → Verdict
unfolding concat join_texts
move name sm current next allowed =
    if includes_value allowed next
    then valid true
    else invalid (record {
      reason = invalid_transition;
      message = concat (
          "Cannot transition "
          ∷ name
          ∷ " '"
          ∷ to_text current
          ∷ "' → '"
          ∷ to_text next
          ∷ "'. Allowed: "
          ∷ (if is_empty allowed then "(none — terminal state)" else join_texts allowed)
          ∷ []);
      current = current;
      attempted = next;
      allowed = allowed;
    })

-- `validateTransition`, of a field's name and machine.
unfoldable pub validate_transition : String → StateMachine → Value → Value → Verdict
unfolding reject_unknown enter move
validate_transition name sm current next =
    if strict_eq current next
    then valid false
    else if not (includes_value sm.states next)
    then reject_unknown sm current next
    else if is_absent current
    then enter name sm next
    else move name sm current next (targets_from sm current)

-- `computeAvailableTransitions`
unfoldable pub compute_available_transitions : StateMachine → Value → List String
compute_available_transitions sm current =
    if is_absent current then sm.initial ∷ [] else targets_from sm current

abbrev pub available_transitions_key : String
available_transitions_key = "availableTransitions"

-- The fields that the caller may read; all of them for no caller.
unfoldable pub visible_fields :
    List (Field × StateMachine) → Option User → List (Field × StateMachine)
visible_fields sms none = sms
visible_fields sms (some user) = select (λ f. can_read_field f.0 (some user)) sms

unfoldable pub available_of : List (Field × StateMachine) → Object → Object → Object
available_of [] r out = out
available_of ((f, sm) ∷ sms) r out =
    available_of sms r
      (put f.name (arr (array (map str (compute_available_transitions sm (get f.name r))))) out)

attach_one : List (Field × StateMachine) → Option Object → Option Object
attach_one sms none = none
attach_one sms (some r) = some (put available_transitions_key (obj (available_of sms r empty)) r)

-- `attachAvailableTransitions`; a falsy record is `none`.
unfoldable pub attach_available_transitions :
    List (Option Object) → Schema → Option User → List (Option Object)
unfolding visible_fields attach_one
attach_available_transitions records schema user =
    let visible : List (Field × StateMachine) =
      visible_fields (state_machine_fields_of schema) user in
    if is_empty visible then records else map (attach_one visible) records

stamp_all : List (Field × StateMachine) → Object → Object
stamp_all [] payload = payload
stamp_all ((f, sm) ∷ sms) payload = stamp_all sms (put f.name (str sm.initial) payload)

-- `stampInitialStates`, for a payload that is there.
unfoldable pub stamp_initial_states : Object → Schema → Object
unfolding stamp_all
stamp_initial_states payload schema = stamp_all (state_machine_fields_of schema) payload

pub record Transition : Type 0 where
  pub field : Field
  pub machine : StateMachine
  pub current : Value
  pub next : Value

-- `beforeRecord ? beforeRecord[name] : undefined`
abbrev pub current_of : Option Object → String → Value
current_of none name = undefined
current_of (some before) name = get name before

-- The loop of `listTransitionsToValidate`.
unfoldable pub changes : List (Field × StateMachine) → Object → Option Object → List Transition
changes [] writable before = []
changes ((f, sm) ∷ sms) writable before =
    if not (has_own f.name writable) || strict_eq (current_of before f.name) (get f.name writable)
    then changes sms writable before
    else record {
      field = f;
      machine = sm;
      current = current_of before f.name;
      next = get f.name writable;
    }
      ∷ changes sms writable before

-- `listTransitionsToValidate`
unfoldable pub list_transitions_to_validate : Object → Option Object → Schema → List Transition
list_transitions_to_validate writable before schema =
    changes (state_machine_fields_of schema) writable before
