-- ===== src/Tests/Deliveries.antt =====
-- Batches of the webhook dispatcher, and overlapping charges, at concrete inputs.
use mathlib.Core.List.{Permᴰ}
use invoice_payment_service.Prelude.{
  ℕ, ◌+◌, ◌≤◌, ◌≡◌, refl, true, false, ◌==◌, none, some, [], ◌∷◌, arith, Text.decimal,
}
use invoice_payment_service.Prelude.Int.{pos}
use invoice_payment_service.Domain.{Uuid}
use invoice_payment_service.Domain.Webhook.{pending}
use invoice_payment_service.Table.{find, where_, order_by, count}
use invoice_payment_service.Db.{Db}
use invoice_payment_service.Reconciler.{is_in}
use invoice_payment_service.Dispatcher.{
  delivery_is, due_ids, lease, fan_out, record_sent, Sent, responded,
}
use invoice_payment_service.Dispatcher.Retry.{Settled}
use invoice_payment_service.Dispatcher.Batch.{
  Outside, Post, Job, Sends, event_is, endpoint_is, send_all, deliver_batch,
}
use invoice_payment_service.Dispatcher.Held.{
  Meanwhile, fanned_out, leased_again, recorded, lease_excludes,
}
use invoice_payment_service.Dispatcher.Settling.{JobsDiffer, send_all_any_order}
use invoice_payment_service.Dispatcher.Delivered.{deliver_batch-Settled}
use invoice_payment_service.PspClient.{ChargeOutcome, seen_key}
use invoice_payment_service.PspClient.Race.{overlapping, overlapping_charges_twice}
use invoice_payment_service.Tests.Webhooks.{event, endpoint, delivery_in, outbox_db, half, half_le}

abbrev failing : Post → Sent
failing post = responded 503

abbrev draw_half : Uuid → ℕ → ℕ
draw_half i n = half n

abbrev pub outside : Outside
outside = record {
  hmac_sha256 = λ secret bytes. bytes;
  hex = λ bytes. "00";
  i64_text = λ t. "1700000000";
  uuid_text = decimal;
  to_vec = λ p. 0x7b ∷ 0x7d ∷ [];
  http = failing;
  timestamp = λ i. pos 1700000000;
  fan_now = 199;
  now = 200;
  sent_now = λ i. 203;
  draw = draw_half;
  new_delivery_id = λ e ep. e + ep;
  max_attempts = pos 8;
}

abbrev due : Db
due = outbox_db (delivery_in pending ∷ [])

held : is_in (due_ids 200 due) 90 ≡ true
unfolding due_ids is_in order_by where_
held = refl

-- While the send is under way, the events are fanned out, another dispatcher claims a batch, and the
-- send of another delivery is answered.
abbrev under_way : Db
under_way =
    record_sent (pos 8) half 215 7 1 (responded 204)
      (lease 210 (fan_out (λ e ep. (e + ep) + 100) 205 (lease 200 due)))

no_such_id : (e ep : Uuid) → ((e + ep) + 100 == 90) ≡ false
no_such_id e ep = ground arith

under_way_runs : Meanwhile 90 (lease 200 due) under_way
under_way_runs =
    recorded (pos 8) half 215 7 1 (responded 204) refl
      (leased_again 210 (fanned_out (λ e ep. (e + ep) + 100) 205 no_such_id Meanwhile.here))

lease_excludes_example : is_in (due_ids 230 under_way) 90 ≡ false
lease_excludes_example = lease_excludes 200 230 due under_way 90 held under_way_runs (omega arith)

abbrev sends : Sends
sends = record { db = due; posts = [] }

found : find (delivery_is 90) due.deliveries ≡ some (delivery_in pending)
unfolding find
found = refl

only : count (delivery_is 90) due.deliveries ≤ 1
unfolding count
only = omega arith

event_found : find (event_is 50) due.events ≡ some event
unfolding find
event_found = refl

endpoint_found : find (endpoint_is 80) due.endpoints ≡ some endpoint
unfolding find
endpoint_found = refl

draws_half : (i : Uuid) (n : ℕ) → outside.draw i n ≤ n
draws_half i n = half_le n

deliver_batch-Settled_example :
    Settled (pos 8) (draw_half 90) 203 (draws_half 90) 90 due 4 (deliver_batch outside sends).db
deliver_batch-Settled_example =
    deliver_batch-Settled outside draws_half sends 90 (delivery_in pending) event endpoint found
      only event_found endpoint_found held

abbrev job_for : Uuid → Job
job_for id = record {
  delivery_id = id;
  attempts = 4;
  event_id = 50;
  payload = event.payload;
  url = endpoint.url;
  secret = endpoint.secret;
}

jobs_differ : JobsDiffer (job_for 90 ∷ job_for 91 ∷ [])
unfolding count
jobs_differ i = ground arith

send_all_any_order_example :
    (send_all outside (job_for 90 ∷ job_for 91 ∷ []) sends).db
    ≡ (send_all outside (job_for 91 ∷ job_for 90 ∷ []) sends).db
send_all_any_order_example =
    send_all_any_order outside (job_for 90 ∷ job_for 91 ∷ []) (job_for 91 ∷ job_for 90 ∷ []) sends
      (Permᴰ.swap refl refl) jobs_differ

nothing_seen : find (seen_key "key-1") [] ≡ none
unfolding find
nothing_seen = refl

overlapping_charges_twice_example :
    ((overlapping "psp-1" "psp-2" "tok_timeout" "key-1" []).0 ≡ (
      (200, some (ChargeOutcome.succeeded "psp-1")),
      (200, some (ChargeOutcome.succeeded "psp-2")),
    ))
    × (find (seen_key "key-1") (overlapping "psp-1" "psp-2" "tok_timeout" "key-1" []).1
        ≡ some (record { key = "key-1"; outcome = ChargeOutcome.succeeded "psp-2" }))
overlapping_charges_twice_example =
    overlapping_charges_twice "psp-1" "psp-2" "key-1" [] nothing_seen
