-- ===== src/Webhooks.antt =====
-- utils/webhookDispatcher.js: which subscriptions an event is delivered to, and the attempts of a
-- delivery. The signature (an HMAC) and `JSON.stringify` are functions that the dispatcher is given;
-- the timers of the retries are commands that end when the delay is over.
pub mod Attempts
pub mod Retries
use Prim.Native.String
use davepi.Base.{
  Bool, List, Option, String, [], false, if◌then◌else◌, leb, length, none, some, suc, true, zero, ℕ,
  ◌*◌, ◌==◌, ◌||◌, ◌∷◌,
}
use davepi.Js.{Value, Object, undefined, null, str, obj, prop, empty}
use davepi.Program.{Program, done, failed, ask, call, ◌>>=◌, ◌>>◌}

-- model/webhook.js
pub record Subscription : Type 0 where
  pub id : Value
  pub user_id : Value
  pub url : String
  pub events : List String
  pub secret : String
  pub active : Bool
  pub failure_count : ℕ

-- What the bus carries.
pub record Event : Type 0 where
  pub type : String
  pub version : Value
  pub user_id : Value
  pub record_id : Value
  pub shown : Value
  pub filter : Value
  pub num_affected : Value

-- `pattern.slice(0, -2) + '.'` for a pattern that ends in `.*`
unfoldable pub wildcard_prefix : String → Option String
wildcard_prefix String.[] = none
wildcard_prefix (String.◌∷◌ c s) =
    let rest : Option String = wildcard_prefix s in
    if String.◌∷◌ c s == ".*"
    then some "."
    else elim rest [ none ↦ none | some p ↦ some (String.◌∷◌ c p) ]

-- `text.startsWith(prefix)`
unfoldable pub starts_with : String → String → Bool
starts_with String.[] text = true
starts_with (String.◌∷◌ p ps) String.[] = false
starts_with (String.◌∷◌ p ps) (String.◌∷◌ c cs) =
    let rest : Bool = starts_with ps cs in
    if String.◌∷◌ p "" == String.◌∷◌ c "" then rest else false

unfoldable pub pattern_matches : String → String → Bool
pattern_matches pattern_ type =
    pattern_ == "*"
    || pattern_ == type
    || elim (wildcard_prefix pattern_) [ none ↦ false | some p ↦ starts_with p type ]

-- `eventMatches`, for a list of patterns.
unfoldable pub event_matches : List String → String → Bool
event_matches [] type = false
event_matches (p ∷ ps) type = pattern_matches p type || event_matches ps type

-- The request that is posted to a subscriber.
pub record Delivery : Type 0 where
  pub url : String
  pub event : String
  pub delivery_id : String
  pub signature : String
  pub body : String

-- What the subscriber answered: `ok`, another status, or what `fetch` threw.
pub data Response : Type 0 where
  accepted : Response
  refused : (reason : String) → Response

pub data Command : Type 0 where
  find_by_id : (id : Value) → Command
  find_active : (user_id : Value) → Command
  random_uuid : Command
  now : Command
  post : Delivery → Command
  set_delivered : (id : Value) → Command
  set_failed : (id : Value) → (failure_count : ℕ) → (reason : String) → (disable : Bool) → Command
  wait : (delay : ℕ) → Command

abbrev pub Answer : Command → Type 0
Answer (find_by_id id) = Option Subscription
Answer (find_active user_id) = List Subscription
Answer random_uuid = String
Answer now = String
Answer (post d) = Response
Answer (set_delivered id) = Unit {0}
Answer (set_failed id n reason disable) = Unit {0}
Answer (wait delay) = Unit {0}

pub data Error : Type 0 where
  out_of_fuel : Error

abbrev pub Dispatch : Type 0 → Type 0
Dispatch A = Program Command Answer Error A

-- `backoffMs[attempt]`
abbrev pub nth : List ℕ → ℕ → Option ℕ
nth [] n = none
nth (d ∷ ds) zero = some d
nth (d ∷ ds) (suc n) = nth ds n

abbrev pub default_backoff_ms : List ℕ
default_backoff_ms = 1000 ∷ 5000 ∷ 30000 ∷ 5 * 60 * 1000 ∷ 60 * 60 * 1000 ∷ []

abbrev pub default_max_failures : ℕ
default_max_failures = 10

module _ (sign : String → String → String) (stringify : Object → String) (backoff_ms : List ℕ)
    (max_failures : ℕ) where
  -- The payload of a delivery.
  unfoldable pub payload : Event → String → String → Object
  payload event id delivered_at = prop "id" (str id) (
      prop "type" (str event.type) (
        prop "version" event.version (
          prop "userId" event.user_id (
            prop "recordId" event.record_id (
              prop "record" event.shown (
                prop "filter" event.filter (
                  prop "numAffected" event.num_affected
                    (prop "deliveredAt" (str delivered_at) empty))))))))

  abbrev pub delivery_of : Subscription → Event → String → String → Delivery
  delivery_of sub event id delivered_at =
      let body : String = stringify (payload event id delivered_at) in
      record {
        url = sub.url;
        event = event.type;
        delivery_id = id;
        signature = String.◌++◌ "sha256=" (sign sub.secret body);
        body = body;
      }

  -- A failed attempt: the count, and the delay of the retry unless the subscription is disabled.
  abbrev pub after_failure : Subscription → ℕ → String → Dispatch (Option ℕ)
  after_failure sub attempt reason =
      let failures : ℕ = suc sub.failure_count in
      let disable : Bool = leb max_failures failures in
      call (set_failed sub.id failures reason disable)
      >> done (if disable then none else nth backoff_ms attempt)

  abbrev pub after_post : Subscription → ℕ → Response → Dispatch (Option ℕ)
  after_post sub attempt accepted = call (set_delivered sub.id) >> done none
  after_post sub attempt (refused reason) = after_failure sub attempt reason

  abbrev pub to_subscriber : Subscription → Event → ℕ → Dispatch (Option ℕ)
  to_subscriber sub event attempt = do
    id ← call random_uuid
    delivered_at ← call now
    response ← call (post (delivery_of sub event id delivered_at))
    after_post sub attempt response

  abbrev pub if_active : Option Subscription → Event → ℕ → Dispatch (Option ℕ)
  if_active none event attempt = done none
  if_active (some sub) event attempt =
      if sub.active then to_subscriber sub event attempt else done none

  -- One attempt of `deliver`, up to the delay after which it is retried.
  unfoldable pub attempt_delivery : Value → Event → ℕ → Dispatch (Option ℕ)
  attempt_delivery sub_id event attempt = do
    sub ← call (find_by_id sub_id)
    if_active sub event attempt

  -- The rest of a delivery after an attempt.
  abbrev pub retry_with : Dispatch (Unit {0}) → Option ℕ → Dispatch (Unit {0})
  retry_with rest none = done tt
  retry_with rest (some delay) = call (wait delay) >> rest

  -- `deliver`, with the attempts that its timers start; the fuel counts the attempts.
  unfoldable pub deliver : ℕ → Value → Event → ℕ → Dispatch (Unit {0})
  deliver zero sub_id event attempt = failed out_of_fuel
  deliver (suc fuel) sub_id event attempt =
      attempt_delivery sub_id event attempt >>= retry_with (deliver fuel sub_id event (suc attempt))

  -- Enough fuel for a delivery.
  abbrev pub all_attempts : ℕ
  all_attempts = suc (length backoff_ms)

  -- The loop of `onRecord`; a delivery that it starts goes on beside the others, here one after another.
  unfoldable pub deliver_all : List Subscription → Event → Dispatch (Unit {0})
  deliver_all [] event = done tt
  deliver_all (sub ∷ subs) event = do
    if event_matches sub.events event.type then deliver all_attempts sub.id event 0 else done tt
    deliver_all subs event

  -- `onRecord`
  unfoldable pub on_record : Event → Dispatch (Unit {0})
  on_record event =
      if event.type == ""
      then done tt
      else call (find_active event.user_id) >>= λ subs. deliver_all subs event
