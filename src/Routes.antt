-- ===== src/Routes.antt =====
-- The payment handler (crates/invoice-service/src/routes/invoices.rs); the other handlers and the
-- router are in the modules below.
pub mod Responses
pub mod Handlers
pub mod App
pub mod Unauthorized
pub mod Isolation
use invoice_payment_service.Prelude.{
  String, Option, none, some, [], ◌∷◌, if◌then◌else◌, Text.trim, Text.is_empty,
}
use invoice_payment_service.Errors.{field_error, AppError, validation, Result, err}
use invoice_payment_service.Domain.{Uuid}
use invoice_payment_service.Domain.Payment.{PayRequest}
use invoice_payment_service.PaymentService.Types.{Crates, Psp, World, PayOutcome}
use invoice_payment_service.PaymentService.Pay.{PayIds, Others, pay}

abbrev nonempty : String → Option String
nonempty s = if is_empty s then none else some s

-- The text of the header `Idempotency-Key`, trimmed, if there is one and it is not blank.
unfoldable pub header_key : Option String → Option String
header_key none = none
header_key (some raw) = nonempty (trim raw)

-- The handler `pay`.
unfoldable pub pay_route :
    Crates
    → Psp
    → PayIds
    → Others
    → Uuid
    → Uuid
    → Option String
    → PayRequest
    → World
    → Result PayOutcome AppError × World
unfolding header_key
pay_route c psp ids others business_id id header req w = elim (header_key header) [
  | none ↦ (
    err (validation (field_error "Idempotency-Key" "this header is required for payments" ∷ [])),
    w,
  )
  | some key ↦ pay c psp ids others business_id id key req w
]
