-- ===== src/Errors/Handler.antt =====
-- middleware/errorHandler.js: the answer to an error that reached the end of the middleware chain, where
-- nothing was sent yet.
use davepi.Base.{
  Bool, List, Option, String, [], arith, eqb, if◌then◌else◌, is_empty, none, refl, some, true, ℕ,
  ◌<◌, ◌==◌, ◌∷◌, ◌≡◌,
}
use Prim.Native.String
use davepi.Errors.{AppError}

-- An error of another class: its `status`, its `statusCode` and its `message`, if it has them.
pub record OtherError : Type 0 where
  pub status : Option ℕ
  pub status_code : Option ℕ
  pub message : String

-- What was thrown: mongoose's validation error with its messages, its cast error with the path, the
-- database's duplicate-key error with the fields, a typed error, or any other error.
pub data Thrown : Type 0 where
  failed_validation : List String → Thrown
  failed_cast : (path : String) → Thrown
  duplicate_key : List String → Thrown
  app_error : AppError → Thrown
  other_error : OtherError → Thrown

pub record Answer : Type 0 where
  pub status : ℕ
  pub code : String
  pub message : String

join_after : String → String → List String → String
join_after separator acc [] = acc
join_after separator acc (t ∷ ts) =
    join_after separator (String.◌++◌ (String.◌++◌ acc separator) t) ts

-- `texts.join(separator)`
unfoldable pub join_texts : String → List String → String
unfolding join_after
join_texts separator [] = ""
join_texts separator (t ∷ ts) = join_after separator t ts

-- `formatDuplicateKey`
unfoldable pub format_duplicate_key : List String → String
format_duplicate_key fields =
    if is_empty fields
    then "Duplicate key"
    else String.◌++◌ "Duplicate value for: " (join_texts ", " fields)

-- `a || b` on a number that may be missing, and on a text
abbrev or_number : Option ℕ → ℕ → ℕ
or_number none b = b
or_number (some a) b = if eqb a 0 then b else a

abbrev or_text : String → String → String
or_text a b = if a == "" then b else a

-- The answer of the error handler, in production or not.
unfoldable pub error_answer : Bool → Thrown → Answer
error_answer is_production (failed_validation messages) = record {
  status = 400;
  code = "VALIDATION";
  message = join_texts "; " messages;
}
error_answer is_production (failed_cast path) = record {
  status = 400;
  code = "INVALID_ID";
  message = String.◌++◌ "Invalid " path;
}
error_answer is_production (duplicate_key fields) = record {
  status = 409;
  code = "DUPLICATE";
  message = format_duplicate_key fields;
}
error_answer is_production (app_error e) = record {
  status = or_number (some e.status) 500;
  code = or_text e.code "INTERNAL";
  message = or_text e.message "Internal server error";
}
error_answer is_production (other_error e) = record {
  status = or_number e.status (or_number e.status_code 500);
  code = "INTERNAL";
  message =
      if is_production then "Internal server error" else or_text e.message "Internal server error";
}

-- In production the answer to an error of no known class does not depend on its message, and in every
-- mode its code is INTERNAL and its status is never zero.
pub error_answer-hides :
    (e e' : OtherError)
    → e.status ≡ e'.status
    → e.status_code ≡ e'.status_code
    → (error_answer true (other_error e) ≡ error_answer true (other_error e'))
      × ((is_production : Bool)
          → ((error_answer is_production (other_error e)).code ≡ "INTERNAL")
            × (0 < (error_answer is_production (other_error e)).status))
unfolding error_answer
error_answer-hides e e' p q = (rw (p, q) refl, λ b. (refl, positive e.status e.status_code))
  where
    positive : (a b : Option ℕ) → 0 < or_number a (or_number b 500)
    positive none none = omega arith
    positive none (some n) = ground arith
    positive (some n) none = ground arith
    positive (some n) (some m) = ground arith
