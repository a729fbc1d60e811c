-- ===== src/Tenants.antt =====
-- The rows of the other businesses: what it is for an operation to leave them alone.
pub mod Services
pub mod Finalizing
pub mod Payments
use invoice_payment_service.Prelude.{◌≤◌, ◌≡◌, refl, Bool, not, ◌==◌}
use invoice_payment_service.Domain.{Uuid}
use invoice_payment_service.Domain.Invoice.{Invoice}
use invoice_payment_service.Domain.Payment.{PaymentAttempt, IdempotencyKey}
use invoice_payment_service.Domain.Webhook.{WebhookEvent, WebhookEndpoint, WebhookDelivery}
use invoice_payment_service.Domain.Customer.{Customer}
use invoice_payment_service.Domain.ApiKey.{ApiKey}
use invoice_payment_service.Table.{where_, count}
use invoice_payment_service.Db.{Db}
use invoice_payment_service.InvoiceRepo.{invoice_is}

-- A row of another business than `b`.
module _ (b : Uuid) where
  abbrev pub other_key : ApiKey → Bool
  other_key r = not (r.business_id == b)

  abbrev pub other_customer : Customer → Bool
  other_customer r = not (r.business_id == b)

  abbrev pub other_invoice : Invoice → Bool
  other_invoice r = not (r.business_id == b)

  abbrev pub other_attempt : PaymentAttempt → Bool
  other_attempt r = not (r.business_id == b)

  abbrev pub other_idempotency_key : IdempotencyKey → Bool
  other_idempotency_key r = not (r.business_id == b)

  abbrev pub other_endpoint : WebhookEndpoint → Bool
  other_endpoint r = not (r.business_id == b)

  abbrev pub other_event : WebhookEvent → Bool
  other_event r = not (r.business_id == b)

  abbrev pub other_delivery : WebhookDelivery → Bool
  other_delivery r = not (r.business_id == b)

  -- The rows of the businesses other than `b` are the same, in the same order, in every table that
  -- has a column `business_id`.
  pub record SameForOthers (db db' : Db) : Type 0 where
    pub keys_same : where_ other_key db'.api_keys ≡ where_ other_key db.api_keys
    pub customers_same : where_ other_customer db'.customers ≡ where_ other_customer db.customers
    pub invoices_same : where_ other_invoice db'.invoices ≡ where_ other_invoice db.invoices
    pub attempts_same : where_ other_attempt db'.attempts ≡ where_ other_attempt db.attempts
    pub idempotency_keys_same :
        where_ other_idempotency_key db'.idempotency_keys
        ≡ where_ other_idempotency_key db.idempotency_keys
    pub endpoints_same : where_ other_endpoint db'.endpoints ≡ where_ other_endpoint db.endpoints
    pub events_same : where_ other_event db'.events ≡ where_ other_event db.events
    pub deliveries_same : where_ other_delivery db'.deliveries ≡ where_ other_delivery db.deliveries

  pub SameForOthers-refl : (db : Db) → SameForOthers db db
  SameForOthers-refl db = record {
    keys_same = refl;
    customers_same = refl;
    invoices_same = refl;
    attempts_same = refl;
    idempotency_keys_same = refl;
    endpoints_same = refl;
    events_same = refl;
    deliveries_same = refl;
  }

-- The primary key of `invoices`.
abbrev pub InvoiceIdsDiffer : Db → Type 0
InvoiceIdsDiffer db = (id : Uuid) → count (invoice_is id) db.invoices ≤ 1
