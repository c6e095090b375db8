-- ===== src/Errors.antt =====
-- utils/errors.js: the typed errors, each with its HTTP status and its code.
pub mod Handler
use Prim.Native.String
use davepi.Base.{String, ℕ}

pub record AppError : Type 0 where
  pub message : String
  pub status : ℕ
  pub code : String

abbrev pub not_found_error : String → AppError
not_found_error resource = record {
  message = String.◌++◌ resource " not found";
  status = 404;
  code = "NOT_FOUND";
}

abbrev pub validation_error : String → AppError
validation_error message = record { message = message; status = 400; code = "VALIDATION" }

abbrev pub conflict_error : String → AppError
conflict_error message = record { message = message; status = 409; code = "CONFLICT" }

abbrev pub unauthorized_error : String → AppError
unauthorized_error message = record { message = message; status = 401; code = "UNAUTHORIZED" }

abbrev pub forbidden_error : String → AppError
forbidden_error message = record { message = message; status = 403; code = "FORBIDDEN" }

abbrev pub method_not_allowed_error : String → AppError
method_not_allowed_error message = record {
  message = message;
  status = 405;
  code = "METHOD_NOT_ALLOWED";
}

abbrev pub idempotency_conflict_error : AppError
idempotency_conflict_error = record {
  message = "Idempotency-Key was reused with a different request body";
  status = 409;
  code = "IDEMPOTENCY_CONFLICT";
}

abbrev pub idempotency_in_progress_error : AppError
idempotency_in_progress_error = record {
  message = "A request with this Idempotency-Key is still in progress; retry shortly";
  status = 409;
  code = "IDEMPOTENCY_IN_PROGRESS";
}

abbrev pub invalid_transition_error : String → AppError
invalid_transition_error message = record {
  message = message;
  status = 400;
  code = "INVALID_TRANSITION";
}
