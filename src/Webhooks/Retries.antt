-- ===== src/Webhooks/Retries.antt =====
-- The length of a delivery: its attempts end, and they are bounded by the schedule of the retries.
use davepi.Base.{
  Bool, List, Option, String, [], arith, false, if◌then◌else◌, inl, inr, leb, length, none, refl,
  some, suc, true, zero, ℕ, ◌+◌, ◌<◌, ◌∷◌, ◌≡◌, ◌≤◌, ◌⊎◌,
}
use davepi.Js.{Value, Object}
use davepi.Program.{Returns, Returns-bind, Within, Within-suc, done, ◌>>=◌}
use davepi.Webhooks.{
  Subscription, Event, Response, accepted, refused, Command, Error, Dispatch, post, nth, after_post,
  to_subscriber, if_active, attempt_delivery, retry_with, deliver, all_attempts,
}

abbrev pub is_post : Command → Bool
is_post (post d) = true
is_post c = false

nth-some : (ds : List ℕ) (n : ℕ) → (nth ds n ≡ none) ⊎ (n < length ds)
nth-some [] n = inl refl
nth-some (d ∷ ds) zero = inr (omega arith)
nth-some (d ∷ ds) (suc n) = elim (nth-some ds n) [ inl e ↦ inl e | inr h ↦ inr (omega arith) ]

module _ (sign : String → String → String) (stringify : Object → String) (backoff_ms : List ℕ)
    (max_failures : ℕ) where
  -- There is no retry, or the schedule has a delay for it.
  abbrev IsScheduled : ℕ → Option ℕ → Type 0
  IsScheduled attempt delay = (delay ≡ none) ⊎ (attempt < length backoff_ms)

  retry_delay :
      (disable : Bool) (attempt : ℕ)
      → IsScheduled attempt (if disable then none else nth backoff_ms attempt)
  retry_delay true attempt = inl refl
  retry_delay false attempt = nth-some backoff_ms attempt

  if_active-Returns :
      (answer : Option Subscription) (event : Event) (attempt : ℕ)
      → Returns
          (IsScheduled attempt)
          (if_active sign stringify backoff_ms max_failures answer event attempt)
  if_active-Returns none event attempt = inl refl
  if_active-Returns (some sub) event attempt = go sub.active
    where
      posted :
          (response : Response)
          → Returns
              (IsScheduled attempt)
              (after_post sign stringify backoff_ms max_failures sub attempt response)
      posted accepted = λ r. inl refl
      posted (refused reason) = λ r. retry_delay (leb max_failures (suc sub.failure_count)) attempt

      go :
          (on : Bool)
          → Returns {E = Error} (IsScheduled attempt) (
              if on
              then to_subscriber sign stringify backoff_ms max_failures sub event attempt
              else done none)
      go true = λ uuid time response. posted response
      go false = inl refl

  abbrev AnyUnit : Unit {0} → Type 0
  AnyUnit a = Unit

  retry-Returns :
      (rest : Dispatch (Unit {0})) (delay : Option ℕ)
      → ((delay ≡ none) ⊎ Returns AnyUnit rest)
      → Returns AnyUnit (retry_with sign stringify backoff_ms max_failures rest delay)
  retry-Returns rest none h = tt
  retry-Returns rest (some delay) (inl e) = cc
  retry-Returns rest (some delay) (inr h) = λ r. h

  deliver-Returns :
      (fuel : ℕ) (id : Value) (event : Event) (attempt : ℕ)
      → length backoff_ms < fuel + attempt
      → attempt ≤ length backoff_ms
      → Returns AnyUnit (deliver sign stringify backoff_ms max_failures fuel id event attempt)
  unfolding deliver attempt_delivery
  deliver-Returns zero id event attempt h k = absurd (omega arith)
  deliver-Returns (suc fuel) id event attempt h k = λ answer.
      Returns-bind (IsScheduled attempt) AnyUnit
        (if_active sign stringify backoff_ms max_failures answer event attempt) _
        (if_active-Returns answer event attempt)
        λ delay scheduled. retry-Returns _ delay (elim scheduled [
          | inl e ↦ inl e
          | inr below ↦ inr (deliver-Returns fuel id event (suc attempt) (omega arith) below)
        ])

  if_active-Within :
      (answer : Option Subscription) (event : Event) (attempt n : ℕ)
      (f : Option ℕ → Dispatch (Unit {0}))
      → ((delay : Option ℕ) → Within is_post (f delay) n)
      → Within is_post
          (if_active sign stringify backoff_ms max_failures answer event attempt >>= f)
          (suc n)
  if_active-Within none event attempt n f h = Within-suc is_post (f none) n (h none)
  if_active-Within (some sub) event attempt n f h = go sub.active
    where
      posted :
          (response : Response)
          → Within is_post
              (after_post sign stringify backoff_ms max_failures sub attempt response >>= f)
              n
      posted accepted = λ r. h none
      posted (refused reason) = λ r. h _

      go :
          (on : Bool)
          → Within {E = Error} is_post
              ((if on
                  then to_subscriber sign stringify backoff_ms max_failures sub event attempt
                  else done none)
                >>= f)
              (suc n)
      go true = λ uuid time response. posted response
      go false = Within-suc is_post (f none) n (h none)

  retry-Within :
      (rest : Dispatch (Unit {0})) (n : ℕ) (delay : Option ℕ)
      → Within is_post rest n
      → Within is_post (retry_with sign stringify backoff_ms max_failures rest delay) n
  retry-Within rest n none h = tt
  retry-Within rest n (some delay) h = λ r. h

  deliver-Within :
      (fuel : ℕ) (id : Value) (event : Event) (attempt : ℕ)
      → Within is_post (deliver sign stringify backoff_ms max_failures fuel id event attempt) fuel
  unfolding deliver attempt_delivery
  deliver-Within zero id event attempt = tt
  deliver-Within (suc fuel) id event attempt = λ answer.
      if_active-Within answer event attempt fuel _
        λ delay. retry-Within _ fuel delay (deliver-Within fuel id event (suc attempt))

-- A delivery ends, whatever the subscriber answers and however the subscription changes meanwhile: the
-- fuel that it is given is enough. It posts at most once more than the schedule has delays.
pub deliver-Ends :
    (sign : String → String → String) (stringify : Object → String) (backoff_ms : List ℕ)
    (max_failures : ℕ) (id : Value) (event : Event)
    → Returns
        (λ _. Unit)
        (deliver sign stringify backoff_ms max_failures
          (all_attempts sign stringify backoff_ms max_failures)
          id
          event
          0)
      × Within is_post
          (deliver sign stringify backoff_ms max_failures
            (all_attempts sign stringify backoff_ms max_failures)
            id
            event
            0)
          (suc (length backoff_ms))
deliver-Ends sign stringify backoff_ms max_failures id event = (
  deliver-Returns sign stringify backoff_ms max_failures _ id event 0 (omega arith) (omega arith),
  deliver-Within sign stringify backoff_ms max_failures _ id event 0,
)
