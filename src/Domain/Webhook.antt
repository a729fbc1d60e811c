-- ===== src/Domain/Webhook.antt =====
-- Webhook endpoints, outbox events and deliveries (crates/invoice-service/src/domain/webhook.rs).
use invoice_payment_service.Prelude.{ℕ, String, Option, List}
use invoice_payment_service.Prelude.Int.{ℤ}
use invoice_payment_service.Domain.{Uuid, Time}
use invoice_payment_service.Domain.Payment.{PaymentStatus}

-- `event_types`
abbrev pub invoice_created : String
invoice_created = "invoice.created"

abbrev pub invoice_paid : String
invoice_paid = "invoice.paid"

abbrev pub invoice_payment_failed : String
invoice_payment_failed = "invoice.payment_failed"

-- The two JSON objects that the services put into events, by their fields.
pub data Payload : Type 0 where
  created : (id customer_id : Uuid) (state : String) (total_cents : ℤ) (currency : String) → Payload
  payment :
      (invoice_id attempt_id : Uuid) (status : PaymentStatus) (amount_cents : ℤ)
      (failure_code : Option String)
      → Payload

-- `struct WebhookEventRow`, with the column `business_id` of `webhook_events`.
pub record WebhookEvent : Type 0 where
  pub id : Uuid
  pub business_id : Uuid
  pub event_type : String
  pub aggregate_id : Uuid
  pub payload : Payload
  pub sequence : ℕ
  pub created_at : Time

-- The column `webhook_endpoints.status`.
pub data EndpointStatus : Type 0 where
  active disabled : EndpointStatus

-- `struct WebhookEndpoint`
pub record WebhookEndpoint : Type 0 where
  pub id : Uuid
  pub business_id : Uuid
  pub url : String
  pub secret : List ℕ
  pub event_types : List String
  pub status : EndpointStatus

-- The column `webhook_deliveries.status`.
pub data DeliveryStatus : Type 0 where
  pending in_flight succeeded failed dead : DeliveryStatus

-- `struct WebhookDeliveryRow`, with the columns `business_id` and `locked_until`.
pub record WebhookDelivery : Type 0 where
  pub id : Uuid
  pub event_id : Uuid
  pub endpoint_id : Uuid
  pub business_id : Uuid
  pub status : DeliveryStatus
  pub attempts : ℕ
  pub next_attempt_at : Time
  pub locked_until : Option Time
  pub last_status_code : Option ℕ
  pub last_error : Option String
  pub last_attempt_at : Option Time
  pub created_at : Time

-- `struct CreateEndpointRequest`
pub record CreateEndpointRequest : Type 0 where
  pub url : String
  pub event_types : List String

-- `struct CreateEndpointResponse`
pub record CreateEndpointResponse : Type 0 where
  pub id : Uuid
  pub url : String
  pub event_types : List String
  pub secret : String
