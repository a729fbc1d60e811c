-- ===== src/WebhookService.antt =====
-- The webhook use-cases behind the API (crates/invoice-service/src/services/webhook_service.rs):
-- registration, the two lists, and the manual replay. `emit_event` is in WebhookEvents.
pub mod Redeliver
use invoice_payment_service.Prelude.{
  ℕ, String, Bool, true, false, not, Option, none, some, List, [], ◌∷◌, ◌&&◌, ◌||◌, ◌==◌, str_eq,
  ltb, take, if◌then◌else◌, Text.starts_with,
}
use invoice_payment_service.Prelude.Int.{ℤ}
use invoice_payment_service.Errors.{field_error, not_found, validation, ok, err}
use invoice_payment_service.Domain.{Uuid, Time}
use invoice_payment_service.Domain.Webhook.{
  WebhookEvent, WebhookEndpoint, active, WebhookDelivery, DeliveryStatus, pending, in_flight,
  succeeded, failed, dead, CreateEndpointRequest, CreateEndpointResponse,
}
use invoice_payment_service.Table.{where_, exists, update, insert, order_by, count}
use invoice_payment_service.Db.{
  Db, Action, Statement, query, pure, fail_if, unique_violation, ◌>>=◌, ◌>>◌,
}
use invoice_payment_service.Pagination.{CursorCodec, Page, list_page}

abbrev pub new_endpoint : Uuid → Uuid → List ℕ → CreateEndpointRequest → WebhookEndpoint
new_endpoint id business_id secret req = record {
  id = id;
  business_id = business_id;
  url = req.url;
  secret = secret;
  event_types = req.event_types;
  status = active;
}

-- The INSERT of `register_endpoint`.
unfoldable insert_endpoint : WebhookEndpoint → Statement Unit
insert_endpoint ep db =
    if exists (λ (e : WebhookEndpoint). e.id == ep.id) db.endpoints
    then (err (unique_violation "webhook_endpoints_pkey"), db)
    else (ok tt, record db { endpoints = insert ep db.endpoints })

-- `register_endpoint`; the secret is the 32 random bytes, and `hex` is `hex::encode`.
unfoldable pub register_endpoint :
    (List ℕ → String) → Uuid → List ℕ → Uuid → CreateEndpointRequest → Action CreateEndpointResponse
unfolding insert_endpoint
register_endpoint hex id secret business_id req = do
  fail_if (not (starts_with "http://" req.url || starts_with "https://" req.url))
      (validation (field_error "url" "must be an http(s) URL" ∷ []))
  query (insert_endpoint (new_endpoint id business_id secret req))
  pure (record { id = id; url = req.url; event_types = req.event_types; secret = hex secret })

abbrev event_of : Uuid → WebhookEvent → Bool
event_of business_id e = e.business_id == business_id

-- `list_events`
unfoldable pub list_events : CursorCodec → Uuid → Option ℤ → Option String → Db → Page WebhookEvent
list_events codec business_id limit cursor db =
    list_page (λ (e : WebhookEvent). e.created_at) (λ (e : WebhookEvent). e.id) codec
      (event_of business_id) limit cursor db.events

-- The text of `webhook_deliveries.status`.
unfoldable pub status_text : DeliveryStatus → String
status_text pending = "pending"
status_text in_flight = "in_flight"
status_text succeeded = "succeeded"
status_text failed = "failed"
status_text dead = "dead"

-- `$2::text IS NULL OR status = $2`
abbrev pub has_status : Option String → DeliveryStatus → Bool
has_status none s = true
has_status (some t) s = str_eq (status_text s) t

abbrev created_later : WebhookDelivery → WebhookDelivery → Bool
created_later a b = ltb b.created_at a.created_at

-- `list_deliveries`
unfoldable pub list_deliveries : Uuid → Option String → Db → List WebhookDelivery
list_deliveries business_id status db = take 200 (
    order_by created_later
      (where_ (λ d. d.business_id == business_id && has_status status d.status) db.deliveries))

-- `status IN ('failed', 'dead')`
abbrev pub is_failed_or_dead : DeliveryStatus → Bool
is_failed_or_dead failed = true
is_failed_or_dead dead = true
is_failed_or_dead _ = false

abbrev pub redeliverable : Uuid → Uuid → WebhookDelivery → Bool
redeliverable business_id id d =
    d.id == id && (d.business_id == business_id && is_failed_or_dead d.status)

abbrev pub reset_delivery : Time → WebhookDelivery → WebhookDelivery
reset_delivery now d = record d {
  status = pending;
  attempts = 0;
  next_attempt_at = now;
  locked_until = none;
  last_error = none;
}

-- `redeliver`
unfoldable pub redeliver : Time → Uuid → Uuid → Action Unit
redeliver now business_id id db =
    if count (redeliverable business_id id) db.deliveries == 0
    then (err (not_found "no failed/dead delivery with that id"), db)
    else (
      ok tt,
      record db {
        deliveries = update (redeliverable business_id id) (reset_delivery now) db.deliveries;
      },
    )
