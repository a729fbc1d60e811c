-- ===== src/Tests/Webhooks.antt =====
-- The webhook dispatcher at concrete inputs.
use invoice_payment_service.Prelude.{
  ℕ, ◌+◌, ◌*◌, ◌≤◌, min, ◌≡◌, refl, none, some, List, [], ◌∷◌, arith,
}
use invoice_payment_service.Prelude.Int.{pos}
use invoice_payment_service.Domain.Webhook.{
  WebhookEvent, WebhookEndpoint, WebhookDelivery, DeliveryStatus, in_flight, active, invoice_paid,
  payment,
}
use invoice_payment_service.Domain.Payment.{PaymentStatus}
use invoice_payment_service.Domain.{Uuid}
use invoice_payment_service.Table.{find, count}
use invoice_payment_service.Db.{Db}
use invoice_payment_service.Dispatcher.{delivery_is, fan_out, record_sent, responded}
use invoice_payment_service.Dispatcher.FanOut.{fan_out_complete, fan_out_once}
use invoice_payment_service.Dispatcher.Pairs.{CoversAll, UniquePairs}
use invoice_payment_service.Dispatcher.Retry.{Settled, record_sent-Settled}
use invoice_payment_service.Tests.{fresh_db}

abbrev pub event : WebhookEvent
event = record {
  id = 50;
  business_id = 1;
  event_type = invoice_paid;
  aggregate_id = 10;
  payload = payment 10 20 PaymentStatus.succeeded (pos 4200) none;
  sequence = 1;
  created_at = 100;
}

abbrev pub endpoint : WebhookEndpoint
endpoint = record {
  id = 80;
  business_id = 1;
  url = "https://example.com/hook";
  secret = 1 ∷ [];
  event_types = [];
  status = active;
}

abbrev pub delivery_in : DeliveryStatus → WebhookDelivery
delivery_in s = record {
  id = 90;
  event_id = 50;
  endpoint_id = 80;
  business_id = 1;
  status = s;
  attempts = 3;
  next_attempt_at = 100;
  locked_until = some 300;
  last_status_code = none;
  last_error = none;
  last_attempt_at = some 100;
  created_at = 100;
}

abbrev pub outbox_db : List WebhookDelivery → Db
outbox_db ds = record fresh_db { events = event ∷ []; endpoints = endpoint ∷ []; deliveries = ds }

abbrev new_id : Uuid → Uuid → Uuid
new_id e ep = e + ep

fan_out_complete_example :
    CoversAll 200 (event ∷ []) (endpoint ∷ []) (fan_out new_id 200 (outbox_db [])).deliveries
fan_out_complete_example = fan_out_complete new_id 200 (outbox_db [])

abbrev other_id : Uuid → Uuid → Uuid
other_id e ep = e * ep

no-UniquePairs : UniquePairs []
unfolding count
no-UniquePairs e ep = omega arith

fan_out_once_example :
    UniquePairs (fan_out new_id 200 (outbox_db [])).deliveries
    × (fan_out other_id 200 (fan_out new_id 200 (outbox_db [])) ≡ fan_out new_id 200 (outbox_db []))
fan_out_once_example = fan_out_once new_id other_id 200 (outbox_db []) no-UniquePairs

abbrev pub half : ℕ → ℕ
half n = min n 5

pub half_le : (n : ℕ) → half n ≤ n
half_le n = omega arith

in_flight_found :
    find (delivery_is 90) (outbox_db (delivery_in in_flight ∷ [])).deliveries
    ≡ some (delivery_in in_flight)
unfolding find
in_flight_found = refl

record_sent-Settled_example :
    Settled
      (pos 8)
      half
      200
      half_le
      90
      (outbox_db (delivery_in in_flight ∷ []))
      3
      (record_sent (pos 8) half 200 90 3 (responded 503) (outbox_db (delivery_in in_flight ∷ [])))
record_sent-Settled_example =
    record_sent-Settled (pos 8) half 200 half_le 90 (outbox_db (delivery_in in_flight ∷ []))
      (delivery_in in_flight) in_flight_found 3 (responded 503)
