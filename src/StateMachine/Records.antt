-- ===== src/StateMachine/Records.antt =====
-- stateMachine.js: the state fields of a record: stamped on create, compared on update, listed on read.
use davepi.Base.{
  All, All-map, Bool, List, Option, String, [], ap, arith, false, if◌then◌else◌, is_empty, map,
  none, not, refl, some, some_of, subst, true, ◌&&◌, ◌==◌, ◌||◌, ◌∙◌, ◌∷◌, ◌≡◌, ◌⊎◌,
}
use davepi.Js.{undefined, Value, str, arr, obj, Object, empty, get, has_own, put, array, strict_eq}
use davepi.Js.Laws.{get-put, has_own-put}
use davepi.Schema.{User, StateMachine, Field, Schema}
use davepi.Acl.{can_read_field}
use davepi.StateMachine.{
  machine_of, machines, state_machine_fields_of, compute_available_transitions, available_of,
  stamp_initial_states, Transition, current_of, changes, stamp_all, visible_fields,
  list_transitions_to_validate, available_transitions_key, attach_available_transitions,
}

-- The machine of a name: of two fields with one name the last one counts.
abbrev pub machine_named : List (Field × StateMachine) → String → Option StateMachine
machine_named [] k = none
machine_named ((f, sm) ∷ sms) k = elim (machine_named sms k) [
  | some last ↦ some last
  | none ↦ if f.name == k then some sm else none
]

abbrev pub stamped_value : Option StateMachine → Value → Value
stamped_value none v = v
stamped_value (some sm) v = str sm.initial

-- `stampInitialStates` sets every state field to its initial state, whatever the payload says, and
-- changes no other property.
pub get-stamp_initial_states :
    (k : String) (payload : Object) (schema : Schema)
    → get k (stamp_initial_states payload schema)
      ≡ stamped_value (machine_named (state_machine_fields_of schema) k) (get k payload)
unfolding stamp_initial_states
get-stamp_initial_states k payload schema = loop (state_machine_fields_of schema) payload
  where
    loop :
        (sms : List (Field × StateMachine)) (o : Object)
        → get k (stamp_all sms o) ≡ stamped_value (machine_named sms k) (get k o)
    loop [] o = refl
    loop ((f, sm) ∷ sms) o =
        ground
          (arith, loop sms (put f.name (str sm.initial) o), get-put k f.name (str sm.initial) o)

-- A state field that the update sets to another value than the record has.
abbrev pub IsChange : Object → Option Object → Transition → Type 0
IsChange writable before t =
    (has_own t.field.name writable ≡ true)
    × (t.current ≡ current_of before t.field.name)
    × (t.next ≡ get t.field.name writable)
    × (strict_eq t.current t.next ≡ false)

changes-IsChange :
    (sms : List (Field × StateMachine)) (writable : Object) (before : Option Object)
    → All (IsChange writable before) (changes sms writable before)
unfolding changes
changes-IsChange [] writable before = tt
changes-IsChange ((f, sm) ∷ sms) writable before =
    ground (arith, changes-IsChange sms writable before)

-- A field with a transition in the list.
abbrev pub HasTransition : List Transition → Field → Type 0
HasTransition [] f = ⊥
HasTransition (t ∷ ts) f = (t.field ≡ f) ⊎ HasTransition ts f

-- The update sets the field to another value than the record has.
abbrev pub Differs : Object → Option Object → Field → Type 0
Differs writable before f =
    (has_own f.name writable ≡ true)
    × (strict_eq (current_of before f.name) (get f.name writable) ≡ false)

module _ (writable : Object) (before : Option Object) where
  -- Each state field that differs has a transition in the list.
  abbrev pub Covered : List Transition → Field × StateMachine → Type 0
  Covered ts m = Differs writable before m.0 → HasTransition ts m.0

  Covered-cons :
      (f : Field) (sm : StateMachine) (sms rest : List (Field × StateMachine))
      → All (Covered (changes rest writable before)) sms
      → All (Covered (changes ((f, sm) ∷ rest) writable before)) sms
  unfolding changes
  Covered-cons f sm sms rest h =
      All-map (Covered (changes rest writable before))
        (Covered (changes ((f, sm) ∷ rest) writable before)) sms (λ m c d. ground (arith, c d)) h

  changes-Covered :
      (sms : List (Field × StateMachine)) → All (Covered (changes sms writable before)) sms
  changes-Covered [] = tt
  changes-Covered ((f, sm) ∷ sms) =
      (λ d. unfold changes in ground arith, Covered-cons f sm sms sms (changes-Covered sms))

-- What a record that was read has in a state field, or undefined without a record.
abbrev pub state_before : Option Object → String → Value
state_before none k = undefined
state_before (some o) k = get k o

-- If the field has a machine with states and the update sets it to another value than was read, the
-- predicate holds of the machine, the value that was read and the new value.
abbrev pub Follows :
    (StateMachine → Value → Value → Type 0) → Object → Option Object → Field → Type 0
Follows P writable before f =
    (sm : StateMachine)
    → f.state_machine ≡ some sm
    → is_empty sm.states ≡ false
    → has_own f.name writable ≡ true
    → strict_eq (state_before before f.name) (get f.name writable) ≡ false
    → P sm (state_before before f.name) (get f.name writable)

abbrev pub EachFollows :
    (StateMachine → Value → Value → Type 0) → Object → Option Object → Option (List Field) → Type 0
EachFollows P writable before none = Unit
EachFollows P writable before (some fields) = All (Follows P writable before) fields

abbrev pub AllFollow :
    (StateMachine → Value → Value → Type 0) → Object → Option Object → Schema → Type 0
AllFollow P writable before schema = EachFollows P writable before schema.fields

module _ (P : StateMachine → Value → Value → Type 0) (writable : Object)
    (before : Option Object) where
  abbrev OfTransition : Transition → Type 0
  OfTransition t = P t.machine t.current t.next

  rest-OfTransition :
      (f : Field) (o : Option StateMachine) (ms : List (Field × StateMachine))
      → All OfTransition (changes (elim o [ none ↦ ms | some sm ↦ (f, sm) ∷ ms ]) writable before)
      → All OfTransition (changes ms writable before)
  unfolding changes
  rest-OfTransition f none ms h = h
  rest-OfTransition f (some sm) ms h =
      go
        (not (has_own f.name writable)
          || strict_eq (current_of before f.name) (get f.name writable))
        h
    where
      t : Transition
      t = record {
        field = f;
        machine = sm;
        current = current_of before f.name;
        next = get f.name writable;
      }

      go :
          (b : Bool)
          → All OfTransition
              (if b then changes ms writable before else t ∷ changes ms writable before)
          → All OfTransition (changes ms writable before)
      go true k = k
      go false k = k.1

  first-OfTransition :
      (f : Field) (sm : StateMachine) (ms : List (Field × StateMachine))
      → has_own f.name writable ≡ true
      → strict_eq (state_before before f.name) (get f.name writable) ≡ false
      → All OfTransition (changes ((f, sm) ∷ ms) writable before)
      → P sm (state_before before f.name) (get f.name writable)
  unfolding changes
  first-OfTransition f sm ms own d h =
      go
        (not (has_own f.name writable)
          || strict_eq (current_of before f.name) (get f.name writable))
        (rw (own, d) refl) h
    where
      t : Transition
      t = record {
        field = f;
        machine = sm;
        current = current_of before f.name;
        next = get f.name writable;
      }

      go :
          (b : Bool)
          → b ≡ false
          → All OfTransition
              (if b then changes ms writable before else t ∷ changes ms writable before)
          → P sm (state_before before f.name) (get f.name writable)
      go true e k = cc
      go false e k = k.0

  machine_of-some :
      (f : Field) (sm : StateMachine)
      → f.state_machine ≡ some sm
      → is_empty sm.states ≡ false
      → machine_of f ≡ some sm
  unfolding machine_of
  machine_of-some f sm e n = ground arith

  machines-cons :
      (f : Field) (sm : StateMachine) (fs : List Field)
      → f.state_machine ≡ some sm
      → is_empty sm.states ≡ false
      → machines (f ∷ fs) ≡ (f, sm) ∷ machines fs
  unfolding machines
  machines-cons f sm fs e n = ap prepend (machine_of-some f sm e n)
    where
      prepend : Option StateMachine → List (Field × StateMachine)
      prepend o = elim o [ none ↦ machines fs | some m ↦ (f, m) ∷ machines fs ]

  machines-Follows :
      (fields : List Field)
      → All OfTransition (changes (machines fields) writable before)
      → All (Follows P writable before) fields
  unfolding machines
  machines-Follows [] h = tt
  machines-Follows (f ∷ fs) h = (
    λ sm e n own d.
        first-OfTransition f sm (machines fs) own d (
          subst (λ ms. All OfTransition (changes ms writable before)) (machines-cons f sm fs e n)
            h),
    machines-Follows fs (rest-OfTransition f (machine_of f) (machines fs) h),
  )

-- What holds of each listed transition holds of each state field that the update changes.
pub list_transitions_to_validate-AllFollow :
    (P : StateMachine → Value → Value → Type 0) (writable : Object) (before : Option Object)
    (schema : Schema)
    → All (λ t. P t.machine t.current t.next) (list_transitions_to_validate writable before schema)
    → AllFollow P writable before schema
unfolding list_transitions_to_validate state_machine_fields_of
list_transitions_to_validate-AllFollow P writable before schema h = go schema.fields h
  where
    go :
        (o : Option (List Field))
        → All
            (λ t. P t.machine t.current t.next)
            (changes (elim o [ none ↦ [] | some fields ↦ machines fields ]) writable before)
        → EachFollows P writable before o
    go none k = tt
    go (some fields) k = machines-Follows P writable before fields k

-- `listTransitionsToValidate` lists state fields that the update sets to another value than the record
-- has, with that value and the record's, and it lists each such field.
pub list_transitions_to_validate-exact :
    (writable : Object) (before : Option Object) (schema : Schema)
    → All (IsChange writable before) (list_transitions_to_validate writable before schema)
      × All
          (Covered writable before (list_transitions_to_validate writable before schema))
          (state_machine_fields_of schema)
unfolding list_transitions_to_validate
list_transitions_to_validate-exact writable before schema = (
  changes-IsChange (state_machine_fields_of schema) writable before,
  changes-Covered writable before (state_machine_fields_of schema),
)

has_own-available_of :
    (k : String) (sms : List (Field × StateMachine)) (r out : Object)
    → has_own k (available_of sms r out) ≡ (some_of (λ m. m.0.name == k) sms || has_own k out)
unfolding available_of
has_own-available_of k [] r out = refl
has_own-available_of k ((f, sm) ∷ sms) r out =
    let shown = arr (array (map str (compute_available_transitions sm (get f.name r)))) in
    ground
      (arith, has_own-available_of k sms r (put f.name shown out), has_own-put k f.name shown out)

some_of-visible :
    (k : String) (sms : List (Field × StateMachine)) (user : User)
    → some_of (λ m. m.0.name == k) (visible_fields sms (some user))
      ≡ some_of (λ m. m.0.name == k && can_read_field m.0 (some user)) sms
unfolding visible_fields
some_of-visible k [] user = refl
some_of-visible k (m ∷ sms) user = ground (arith, some_of-visible k sms user)

-- On a record that is returned to a caller, the available transitions stand for the state fields that
-- the caller may read, and for no other.
pub attach_available_transitions-visible :
    (r : Object) (schema : Schema) (user : User) (m : Field × StateMachine)
    (ms : List (Field × StateMachine)) (k : String)
    → visible_fields (state_machine_fields_of schema) (some user) ≡ m ∷ ms
    → (shown : Object) × (attach_available_transitions (some r ∷ []) schema (some user)
        ≡ some (put available_transitions_key (obj shown) r) ∷ [])
      × (has_own k shown
          ≡ some_of
              (λ m. m.0.name == k && can_read_field m.0 (some user))
              (state_machine_fields_of schema))
unfolding attach_available_transitions
attach_available_transitions-visible r schema user m ms k e =
    let visible = visible_fields (state_machine_fields_of schema) (some user) in
    (
      available_of visible r empty,
      rw e refl,
      has_own-available_of k visible r empty
          ∙ unfold has_own in
            ground (arith, some_of-visible k (state_machine_fields_of schema) user),
    )
