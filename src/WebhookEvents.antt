-- ===== src/WebhookEvents.antt =====
-- The outbox: `emit_event` of crates/invoice-service/src/services/webhook_service.rs.
use invoice_payment_service.Prelude.{◌+◌, String, Bool, ◌==◌, if◌then◌else◌}
use invoice_payment_service.Errors.{ok, err}
use invoice_payment_service.Domain.{Uuid, Time}
use invoice_payment_service.Domain.Webhook.{Payload, WebhookEvent}
use invoice_payment_service.Table.{exists, insert}
use invoice_payment_service.Db.{Db, Statement, unique_violation}

abbrev pub event_is : Uuid → WebhookEvent → Bool
event_is id e = e.id == id

-- The row that `emit_event` inserts; `sequence` is a `bigserial`.
abbrev pub new_event : Uuid → Uuid → String → Uuid → Payload → Time → Db → WebhookEvent
new_event id business_id event_type aggregate_id payload now db = record {
  id = id;
  business_id = business_id;
  event_type = event_type;
  aggregate_id = aggregate_id;
  payload = payload;
  sequence = db.next_sequence;
  created_at = now;
}

-- `emit_event`, with the id of `new_id` and the transaction's `now()`.
unfoldable pub emit_event : Uuid → Uuid → String → Uuid → Payload → Time → Statement Uuid
emit_event id business_id event_type aggregate_id payload now db =
    let e = new_event id business_id event_type aggregate_id payload now db in
    if exists (event_is id) db.events
    then (err (unique_violation "webhook_events_pkey"), db)
    else (ok id, record db { events = insert e db.events; next_sequence = db.next_sequence + 1 })
