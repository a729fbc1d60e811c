-- ===== src/Errors.antt =====
-- The error type of the API and its wire envelope (crates/common/src/error.rs), with the two
-- tests on database errors of crates/invoice-service/src/repositories/mod.rs.
use invoice_payment_service.Prelude.{
  ℕ, String, Bool, false, Option, none, List, [], ◌∷◌, str_eq, Text.concat,
}

-- `struct FieldError`
pub record FieldError : Type 0 where
  pub field : String
  pub issue : String

-- `FieldError::new`
abbrev pub field_error : String → String → FieldError
field_error field issue = record { field = field; issue = issue }

-- `struct ErrorDetail`; `ErrorBody` wraps it in a field `error`.
pub record ErrorDetail : Type 0 where
  pub code : String
  pub kind : String
  pub message : String
  pub details : List FieldError

-- `enum AppError`. The cause of `Internal`, an `anyhow::Error`, is kept as its text.
pub data AppError : Type 0 where
  unauthorized : AppError
  not_found : String → AppError
  validation : List FieldError → AppError
  conflict : (code message : String) → AppError
  invalid_state_transition : (from to : String) → AppError
  payment_declined : String → AppError
  internal : String → AppError

-- `AppError::parts`: the HTTP status, the code and the type.
unfoldable pub parts : AppError → ℕ × String × String
parts unauthorized = (401, "unauthorized", "authentication_error")
parts (not_found what) = (404, "not_found", "invalid_request_error")
parts (validation fields) = (422, "validation_error", "invalid_request_error")
parts (conflict code message) = (409, code, "invalid_request_error")
parts (invalid_state_transition from to) =
    (409, "invalid_state_transition", "invalid_request_error")
parts (payment_declined reason) = (402, "payment_declined", "card_error")
parts (internal cause) = (500, "internal_error", "api_error")

-- The `#[error(…)]` texts, which `to_string` gives.
unfoldable pub display : AppError → String
display unauthorized = "authentication required or invalid credentials"
display (not_found what) = what
display (validation fields) = "validation failed"
display (conflict code message) = concat (code ∷ ": " ∷ message ∷ [])
display (invalid_state_transition from to) =
    concat ("cannot transition invoice from " ∷ from ∷ " to " ∷ to ∷ [])
display (payment_declined reason) = concat ("payment declined: " ∷ reason ∷ [])
display (internal cause) = cause

-- The message and the details that `into_response` chooses.
unfoldable pub message_and_details : AppError → String × List FieldError
unfolding display
message_and_details (internal cause) = ("an internal error occurred", [])
message_and_details (validation fields) = ("one or more fields are invalid", fields)
message_and_details (conflict code message) = (message, [])
message_and_details other = (display other, [])

-- `IntoResponse::into_response`: the status and the body.
unfoldable pub into_response : AppError → ℕ × ErrorDetail
unfolding parts message_and_details
into_response e =
    let (status, code, kind) = parts e in
    let (message, details) = message_and_details e in
    (status, record { code = code; kind = kind; message = message; details = details })

-- `sqlx::Error`, as far as the program looks at it: no row, an error that the database reports
-- with its SQLSTATE and constraint, or anything else with its text.
pub data SqlxError : Type 0 where
  row_not_found : SqlxError
  database : (code : String) (constraint : Option String) → SqlxError
  other_error : String → SqlxError

-- `From<sqlx::Error> for AppError`
unfoldable pub from_sqlx : SqlxError → AppError
from_sqlx row_not_found = not_found "resource not found"
from_sqlx (database code constraint) = internal code
from_sqlx (other_error cause) = internal cause

-- `repositories::is_unique_violation`
unfoldable pub is_unique_violation : SqlxError → Bool
is_unique_violation row_not_found = false
is_unique_violation (database code constraint) = str_eq code "23505"
is_unique_violation (other_error cause) = false

-- `repositories::constraint_name`
unfoldable pub constraint_name : SqlxError → Option String
constraint_name (database code constraint) = constraint
constraint_name row_not_found = none
constraint_name (other_error cause) = none

pub data Result {ℓ κ} (A : Type ℓ) (E : Type κ) : Type (ℓ ⊔ κ) where
  ok : A → Result A E
  err : E → Result A E
