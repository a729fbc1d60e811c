-- ===== src/Dispatcher/Pairs.antt =====
-- The unique index on (event_id, endpoint_id) of `webhook_deliveries`, and what an INSERT under it keeps.
use invoice_payment_service.Prelude.{◌≤◌, ◌≡◌, ◌⊎◌, true, false, List, [], ◌∷◌, arith}
use invoice_payment_service.Domain.{Uuid, Time}
use invoice_payment_service.Domain.Webhook.{WebhookEvent, WebhookEndpoint, WebhookDelivery}
use invoice_payment_service.Table.{exists, count}
use invoice_payment_service.Table.Laws.{exists-insert, count-insert, count_of_not_exists}
use invoice_payment_service.Dispatcher.{matches, is_recent, pair_is, insert_delivery}

-- The unique index: at most one delivery for an event and an endpoint.
abbrev pub UniquePairs : List WebhookDelivery → Type 0
UniquePairs ds = (event_id endpoint_id : Uuid) → count (pair_is event_id endpoint_id) ds ≤ 1

pub insert_delivery-UniquePairs :
    (d : WebhookDelivery) (ds : List WebhookDelivery)
    → UniquePairs ds
    → UniquePairs (insert_delivery d ds)
unfolding insert_delivery
insert_delivery-UniquePairs d ds h event_id endpoint_id = ground (
  arith,
  h event_id endpoint_id,
  count-insert (pair_is event_id endpoint_id) d ds,
  count_of_not_exists (pair_is d.event_id d.endpoint_id) ds,
)

pub insert_delivery_keeps :
    (event_id endpoint_id : Uuid) (d : WebhookDelivery) (ds : List WebhookDelivery)
    → exists (pair_is event_id endpoint_id) ds ≡ true
    → exists (pair_is event_id endpoint_id) (insert_delivery d ds) ≡ true
unfolding insert_delivery
insert_delivery_keeps event_id endpoint_id d ds h =
    ground (arith, exists-insert (pair_is event_id endpoint_id) d ds)

pub insert_delivery_adds :
    (d : WebhookDelivery) (ds : List WebhookDelivery)
    → exists (pair_is d.event_id d.endpoint_id) (insert_delivery d ds) ≡ true
unfolding insert_delivery
insert_delivery_adds d ds = ground (arith, exists-insert (pair_is d.event_id d.endpoint_id) d ds)

-- Every endpoint that an event matches has its delivery.
abbrev pub Covers : WebhookEvent → List WebhookEndpoint → List WebhookDelivery → Type 0
Covers e [] ds = Unit
Covers e (ep ∷ eps) ds =
    ((matches e ep ≡ false) ⊎ (exists (pair_is e.id ep.id) ds ≡ true)) × Covers e eps ds

-- So has every recent event of a list.
abbrev pub CoversAll :
    Time → List WebhookEvent → List WebhookEndpoint → List WebhookDelivery → Type 0
CoversAll now [] eps ds = Unit
CoversAll now (e ∷ es) eps ds =
    ((is_recent now e ≡ false) ⊎ Covers e eps ds) × CoversAll now es eps ds
