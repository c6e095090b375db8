-- ===== src/Tests/Machines.antt =====
-- The state machine of sample invoices.
use davepi.Base.{[], refl, true, ◌↔◌, ◌≡◌}
use davepi.Js.{str, strict_eq, to_text}
use davepi.StateMachine.{
  valid, invalid, Rejection, invalid_transition, includes_value, validate_transition,
  compute_available_transitions, is_absent, targets_from,
}
use davepi.StateMachine.Moves.{
  Move, follow, Reach, created, updated, available-validate_transition, Reach-listed,
}
use davepi.Tests.{status_machine}

draft_sent : validate_transition "status" status_machine (str "draft") (str "sent") ≡ valid true
unfolding validate_transition strict_eq includes_value is_absent targets_from to_text
draft_sent = refl

-- A paid invoice is in a terminal state.
abbrev terminal : Rejection
terminal = record {
  reason = invalid_transition;
  message = "Cannot transition status 'paid' → 'draft'. Allowed: (none — terminal state)";
  current = str "paid";
  attempted = str "draft";
  allowed = [];
}

paid_draft :
    validate_transition "status" status_machine (str "paid") (str "draft") ≡ invalid terminal
unfolding validate_transition strict_eq includes_value is_absent targets_from to_text
paid_draft = refl

sent_paid : Move status_machine (str "sent") (str "paid")
unfolding targets_from is_absent to_text
sent_paid = follow {current = str "sent"} "paid" refl refl refl

available-validate_transition_example :
    (validate_transition "status" status_machine (str "sent") (str "draft") ≡ valid true) ↔ (
      includes_value (compute_available_transitions status_machine (str "sent")) (str "draft")
      ≡ true)
unfolding strict_eq includes_value
available-validate_transition_example =
    available-validate_transition "status" status_machine (str "sent") (str "draft") refl refl

Reach-sent : Reach "status" status_machine (str "sent")
Reach-sent = updated true created draft_sent

Reach-listed_example : includes_value status_machine.states (str "sent") ≡ true
Reach-listed_example = Reach-listed "status" status_machine (str "sent") refl Reach-sent
