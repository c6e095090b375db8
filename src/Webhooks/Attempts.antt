-- ===== src/Webhooks/Attempts.antt =====
-- The attempts of a delivery: what each of them does, and how many there are.
use Prim.Native.String
use davepi.Base.{Bool, List, String, [], false, leb, some, suc, true, ℕ, ◌∷◌, ◌≡◌, ◌⊎◌}
use davepi.Js.{Value, Object}
use davepi.Program.{Answered, Happened}
use davepi.Webhooks.{
  Delivery, Subscription, Event, Response, accepted, refused, Command, Answer, find_by_id,
  find_active, random_uuid, now, post, set_delivered, set_failed, wait, event_matches,
}

abbrev pub Past : Type 0
Past = List (Answered Command Answer)

abbrev pub is_post : Command → Bool
is_post (post d) = true
is_post c = false

-- The latest command was no attempt, so the outcome of each attempt before was recorded.
abbrev pub IsSettled : Past → Type 0
IsSettled [] = Unit
IsSettled (e ∷ past) = is_post e.0 ≡ false

-- The latest command was an attempt with this answer.
abbrev pub HasJust : Response → Past → Type 0
HasJust response [] = ⊥
HasJust response (e ∷ past) = (d : Delivery) × (e ≡ (post d, response))

-- A listed subscription of this id whose patterns match.
abbrev pub IsListed : Event → Value → List Subscription → Type 0
IsListed event id [] = ⊥
IsListed event id (sub ∷ subs) =
    ((sub.id ≡ id) × (event_matches sub.events event.type ≡ true)) ⊎ IsListed event id subs

module _ (sign : String → String → String) (stringify : Object → String) (backoff_ms : List ℕ)
    (max_failures : ℕ) (event : Event) where
  -- The subscription was among the active ones of the event's user, and its patterns match.
  abbrev pub IsSubscribed : Value → Past → Type 0
  IsSubscribed id past =
      (subs : List Subscription) × Happened (find_active event.user_id) subs past
      × IsListed event id subs

  -- It was read again, and was still active.
  abbrev pub WasActive : Subscription → Past → Type 0
  WasActive sub past =
      (id : Value) × Happened (find_by_id id) (some sub) past
      × (sub.active ≡ true)
      × IsSubscribed id past

  -- What the dispatcher may do with an event; behind an attempt it records the attempt's outcome, and does
  -- nothing else before.
  abbrev pub Dispatches : Past → Command → Type 0
  Dispatches past (find_active user_id) = (user_id ≡ event.user_id) × IsSettled past
  Dispatches past (find_by_id id) = IsSubscribed id past × IsSettled past
  Dispatches past (post d) =
      (sub : Subscription) × WasActive sub past
      × (d.url ≡ sub.url)
      × (d.event ≡ event.type)
      × (d.signature ≡ String.◌++◌ "sha256=" (sign sub.secret d.body))
      × IsSettled past
  Dispatches past (set_delivered id) =
      (sub : Subscription) × WasActive sub past × (id ≡ sub.id) × HasJust accepted past
  Dispatches past (set_failed id failures reason disable) =
      (sub : Subscription) × WasActive sub past
      × (id ≡ sub.id)
      × (failures ≡ suc sub.failure_count)
      × (disable ≡ leb max_failures failures)
      × HasJust (refused reason) past
  Dispatches past random_uuid = IsSettled past
  Dispatches past now = IsSettled past
  Dispatches past (wait delay) = IsSettled past

  -- What was subscribed after the commands `past` still is.
  abbrev Keeps : Past → Past → Type 0
  Keeps past after = (id : Value) → IsSubscribed id past → IsSubscribed id after

  abbrev Stays : {A : Type 0} → Past → Past → A → Type 0
  Stays past after a = IsSettled after × Keeps past after
