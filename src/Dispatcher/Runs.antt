-- ===== src/Dispatcher/Runs.antt =====
-- What holds throughout a run of the dispatcher.
use mathlib.Core.Path.{subst}
use invoice_payment_service.Prelude.{◌≡◌, refl, sym, Bool, List, [], ◌∷◌, arith}
use invoice_payment_service.Domain.{Uuid}
use invoice_payment_service.Domain.Webhook.{WebhookDelivery}
use invoice_payment_service.Table.{update}
use invoice_payment_service.Table.Laws.{count-update}
use invoice_payment_service.Dispatcher.{
  pair_is, delivery_is, lease, leased, picked, due_ids, fan_out,
}
use invoice_payment_service.Dispatcher.FanOut.{fan_out_once}
use invoice_payment_service.Dispatcher.Pairs.{UniquePairs}
use invoice_payment_service.Dispatcher.Settling.{record_sent-Writes}
use invoice_payment_service.Dispatcher.Batch.{
  Outside, Job, Sends, send_one, send_all, post_of, hydrate, deliver_claimed, deliver_batch, tick,
  Wake, cancelled, elapsed, run,
}

-- An update that keeps the event and the endpoint of each row keeps the pairs unique.
pub update-UniquePairs :
    (q : WebhookDelivery → Bool) (f : WebhookDelivery → WebhookDelivery) (t : List WebhookDelivery)
    → ((r : WebhookDelivery) → ((f r).event_id ≡ r.event_id) × ((f r).endpoint_id ≡ r.endpoint_id))
    → UniquePairs t
    → UniquePairs (update q f t)
update-UniquePairs q f t keep unique event_id endpoint_id = omega (
  arith,
  unique event_id endpoint_id,
  count-update (pair_is event_id endpoint_id) q f t (λ r. ground (arith, keep r)),
)

module _ (o : Outside) where
  send_one-UniquePairs :
      (j : Job) (s : Sends)
      → UniquePairs s.db.deliveries
      → UniquePairs (send_one o j s).db.deliveries
  unfolding send_one
  send_one-UniquePairs j s unique =
      let (f, keep, pair, write) =
        record_sent-Writes o.max_attempts (o.draw j.delivery_id) (o.sent_now j.delivery_id)
          j.delivery_id j.attempts (o.http (post_of o j)) in
      subst (λ db. UniquePairs db.deliveries) (sym (write s.db))
        (update-UniquePairs (delivery_is j.delivery_id) f s.db.deliveries pair unique)

  send_all-UniquePairs :
      (js : List Job) (s : Sends)
      → UniquePairs s.db.deliveries
      → UniquePairs (send_all o js s).db.deliveries
  unfolding send_all
  send_all-UniquePairs [] s unique = unique
  send_all-UniquePairs (j ∷ js) s unique =
      send_all-UniquePairs js (send_one o j s) (send_one-UniquePairs j s unique)

  claimed-UniquePairs :
      (ids : List Uuid) (s : Sends)
      → UniquePairs s.db.deliveries
      → UniquePairs (deliver_claimed o ids s).db.deliveries
  claimed-UniquePairs [] s unique = unique
  claimed-UniquePairs (i ∷ ids) s unique = send_all-UniquePairs (hydrate (i ∷ ids) s.db) s unique

  batch-UniquePairs :
      (s : Sends) → UniquePairs s.db.deliveries → UniquePairs (deliver_batch o s).db.deliveries
  unfolding deliver_batch lease
  batch-UniquePairs s unique =
      claimed-UniquePairs (due_ids o.now s.db) (record s { db = lease o.now s.db })
        (update-UniquePairs (picked (due_ids o.now s.db)) (leased o.now) s.db.deliveries
          (λ r. (refl, refl)) unique)

  tick-UniquePairs :
      (s : Sends) → UniquePairs s.db.deliveries → UniquePairs (tick o s).db.deliveries
  unfolding tick
  tick-UniquePairs s unique =
      batch-UniquePairs (record s { db = fan_out o.new_delivery_id o.fan_now s.db })
        (fan_out_once o.new_delivery_id o.new_delivery_id o.fan_now s.db unique).0

-- Along a run of the dispatcher, whatever wakes it and whatever the receivers answer, no event gets a
-- second delivery for one endpoint, if it had none at the start.
run-UniquePairs :
    (wakes : List Wake) (s : Sends)
    → UniquePairs s.db.deliveries
    → UniquePairs (run wakes s).db.deliveries
unfolding run
run-UniquePairs [] s unique = unique
run-UniquePairs (cancelled ∷ wakes) s unique = unique
run-UniquePairs (elapsed o ∷ wakes) s unique =
    run-UniquePairs wakes (tick o s) (tick-UniquePairs o s unique)
