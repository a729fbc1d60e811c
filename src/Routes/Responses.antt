-- ===== src/Routes/Responses.antt =====
-- The responses of the API: a status and one of the bodies that the handlers of
-- crates/invoice-service/src/routes give.
use invoice_payment_service.Prelude.{ℕ, String, List}
use invoice_payment_service.Errors.{ErrorDetail, AppError, into_response, Result, ok, err}
use invoice_payment_service.Domain.Invoice.{InvoiceResponse}
use invoice_payment_service.Domain.Payment.{PaymentAttemptResponse}
use invoice_payment_service.Domain.Webhook.{WebhookEvent, WebhookDelivery, CreateEndpointResponse}
use invoice_payment_service.Domain.Customer.{CustomerResponse}
use invoice_payment_service.Domain.ApiKey.{CreateApiKeyResponse, ApiKeyListItem}
use invoice_payment_service.Pagination.{Page}
use invoice_payment_service.PaymentService.Types.{World, PayOutcome}
use invoice_payment_service.Db.{Db}

pub data Body : Type 0 where
  error : ErrorDetail → Body
  text : String → Body
  empty : Body
  invoice : InvoiceResponse → Body
  invoice_page : Page InvoiceResponse → Body
  attempt : PaymentAttemptResponse → Body
  customer : CustomerResponse → Body
  customer_page : Page CustomerResponse → Body
  api_key : CreateApiKeyResponse → Body
  api_keys : List ApiKeyListItem → Body
  endpoint : CreateEndpointResponse → Body
  event_page : Page WebhookEvent → Body
  deliveries : List WebhookDelivery → Body

abbrev pub Response : Type 0
Response = ℕ × Body

-- `IntoResponse` of an `AppError`.
unfoldable pub error_response : AppError → Response
unfolding into_response
error_response e = let (status, detail) = into_response e in (status, error detail)

module _ {A : Type 0} (status : ℕ) (body : A → Body) where
  -- `IntoResponse` of an `AppResult`.
  abbrev pub respond : Result A AppError → Response
  respond (ok a) = (status, body a)
  respond (err e) = error_response e

  -- A handler that writes.
  abbrev pub respond_db : Result A AppError × Db → World → Response × World
  respond_db (r, db) w = (respond r, record w { db = db })

-- The payment handler gives its own status.
abbrev pub respond_pay : Result PayOutcome AppError × World → Response × World
respond_pay (ok (status, a), w) = ((status, attempt a), w)
respond_pay (err e, w) = (error_response e, w)
