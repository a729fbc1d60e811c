-- ===== src/Dispatcher/FanOut.antt =====
-- The fan-out of events to deliveries.
use invoice_payment_service.Prelude.{
  ◌≡◌, refl, ap, ◌∙◌, ◌⊎◌, inl, inr, true, false, List, [], ◌∷◌, arith, if◌then◌else◌, Bool-cases,
}
use invoice_payment_service.Domain.{Uuid, Time}
use invoice_payment_service.Domain.Webhook.{WebhookEvent, WebhookEndpoint, WebhookDelivery}
use invoice_payment_service.Table.{exists}
use invoice_payment_service.Db.{Db}
use invoice_payment_service.Dispatcher.{
  matches, is_recent, pair_is, new_delivery, insert_delivery, fan_event, fan_events, fan_out,
}
use invoice_payment_service.Dispatcher.Pairs.{
  Covers, CoversAll, UniquePairs, insert_delivery-UniquePairs, insert_delivery_adds,
  insert_delivery_keeps,
}

module _ (new_id : Uuid → Uuid → Uuid) (now : Time) where
  abbrev step : WebhookEvent → WebhookEndpoint → List WebhookDelivery → List WebhookDelivery
  step e ep ds =
      if matches e ep then insert_delivery (new_delivery (new_id e.id ep.id) now e ep) ds else ds

  step-UniquePairs :
      (e : WebhookEvent) (ep : WebhookEndpoint) (ds : List WebhookDelivery)
      → UniquePairs ds
      → UniquePairs (step e ep ds)
  step-UniquePairs e ep ds h event_id endpoint_id = ground (
    arith,
    h event_id endpoint_id,
    insert_delivery-UniquePairs (new_delivery (new_id e.id ep.id) now e ep) ds h event_id
        endpoint_id,
  )

  step_keeps :
      (event_id endpoint_id : Uuid) (e : WebhookEvent) (ep : WebhookEndpoint)
      (ds : List WebhookDelivery)
      → exists (pair_is event_id endpoint_id) ds ≡ true
      → exists (pair_is event_id endpoint_id) (step e ep ds) ≡ true
  step_keeps event_id endpoint_id e ep ds h = ground (
    arith,
    insert_delivery_keeps event_id endpoint_id (new_delivery (new_id e.id ep.id) now e ep) ds,
  )

  fan_event-UniquePairs :
      (e : WebhookEvent) (eps : List WebhookEndpoint) (ds : List WebhookDelivery)
      → UniquePairs ds
      → UniquePairs (fan_event new_id now e eps ds)
  unfolding fan_event
  fan_event-UniquePairs e [] ds h = h
  fan_event-UniquePairs e (ep ∷ eps) ds h =
      fan_event-UniquePairs e eps (step e ep ds) (step-UniquePairs e ep ds h)

  fan_event_keeps :
      (event_id endpoint_id : Uuid) (e : WebhookEvent) (eps : List WebhookEndpoint)
      (ds : List WebhookDelivery)
      → exists (pair_is event_id endpoint_id) ds ≡ true
      → exists (pair_is event_id endpoint_id) (fan_event new_id now e eps ds) ≡ true
  unfolding fan_event
  fan_event_keeps event_id endpoint_id e [] ds h = h
  fan_event_keeps event_id endpoint_id e (ep ∷ eps) ds h =
      fan_event_keeps event_id endpoint_id e eps (step e ep ds)
        (step_keeps event_id endpoint_id e ep ds h)

  step_adds :
      (e : WebhookEvent) (ep : WebhookEndpoint) (ds : List WebhookDelivery)
      → (matches e ep ≡ false) ⊎ (exists (pair_is e.id ep.id) (step e ep ds) ≡ true)
  step_adds e ep ds =
      ground (arith, insert_delivery_adds (new_delivery (new_id e.id ep.id) now e ep) ds)

  fan_event-Covers :
      (e : WebhookEvent) (eps : List WebhookEndpoint) (ds : List WebhookDelivery)
      → Covers e eps (fan_event new_id now e eps ds)
  unfolding fan_event
  fan_event-Covers e [] ds = tt
  fan_event-Covers e (ep ∷ eps) ds = (
    elim (step_adds e ep ds) [
      | inl other ↦ inl other
      | inr there ↦ inr (fan_event_keeps e.id ep.id e eps (step e ep ds) there)
    ],
    fan_event-Covers e eps (step e ep ds),
  )

  abbrev round : WebhookEvent → List WebhookEndpoint → List WebhookDelivery → List WebhookDelivery
  round e eps ds = if is_recent now e then fan_event new_id now e eps ds else ds

  round_keeps :
      (event_id endpoint_id : Uuid) (e : WebhookEvent) (eps : List WebhookEndpoint)
      (ds : List WebhookDelivery)
      → exists (pair_is event_id endpoint_id) ds ≡ true
      → exists (pair_is event_id endpoint_id) (round e eps ds) ≡ true
  round_keeps event_id endpoint_id e eps ds h =
      ground (arith, fan_event_keeps event_id endpoint_id e eps ds h)

  fan_events_keeps :
      (event_id endpoint_id : Uuid) (es : List WebhookEvent) (eps : List WebhookEndpoint)
      (ds : List WebhookDelivery)
      → exists (pair_is event_id endpoint_id) ds ≡ true
      → exists (pair_is event_id endpoint_id) (fan_events new_id now es eps ds) ≡ true
  unfolding fan_events
  fan_events_keeps event_id endpoint_id [] eps ds h = h
  fan_events_keeps event_id endpoint_id (e ∷ es) eps ds h =
      fan_events_keeps event_id endpoint_id es eps (round e eps ds)
        (round_keeps event_id endpoint_id e eps ds h)

  Covers-fan_events :
      (e : WebhookEvent) (eps' : List WebhookEndpoint) (es : List WebhookEvent)
      (eps : List WebhookEndpoint) (ds : List WebhookDelivery)
      → Covers e eps' ds
      → Covers e eps' (fan_events new_id now es eps ds)
  Covers-fan_events e [] es eps ds h = tt
  Covers-fan_events e (ep ∷ eps') es eps ds (here, rest) = (
    elim here [
      | inl other ↦ inl other
      | inr there ↦ inr (fan_events_keeps e.id ep.id es eps ds there)
    ],
    Covers-fan_events e eps' es eps ds rest,
  )

  round-Covers :
      (e : WebhookEvent) (eps : List WebhookEndpoint) (ds : List WebhookDelivery)
      → (is_recent now e ≡ false) ⊎ Covers e eps (round e eps ds)
  round-Covers e eps ds = elim (Bool-cases (is_recent now e)) [
    | inl recent ↦ inr (rw recent (fan_event-Covers e eps ds))
    | inr old ↦ inl old
  ]

  fan_events-CoversAll :
      (es : List WebhookEvent) (eps : List WebhookEndpoint) (ds : List WebhookDelivery)
      → CoversAll now es eps (fan_events new_id now es eps ds)
  unfolding fan_events
  fan_events-CoversAll [] eps ds = tt
  fan_events-CoversAll (e ∷ es) eps ds = (
    elim (round-Covers e eps ds) [
      | inl old ↦ inl old
      | inr c ↦ inr (Covers-fan_events e eps es eps (round e eps ds) c)
    ],
    fan_events-CoversAll es eps (round e eps ds),
  )

  -- After a fan-out every event of the last hour has a delivery to every active endpoint of its
  -- business that subscribes to its type.
  pub fan_out_complete :
      (db : Db) → CoversAll now db.events db.endpoints (fan_out new_id now db).deliveries
  unfolding fan_out
  fan_out_complete db = fan_events-CoversAll db.events db.endpoints db.deliveries

  fan_events-UniquePairs :
      (es : List WebhookEvent) (eps : List WebhookEndpoint) (ds : List WebhookDelivery)
      → UniquePairs ds
      → UniquePairs (fan_events new_id now es eps ds)
  unfolding fan_events
  fan_events-UniquePairs [] eps ds h = h
  fan_events-UniquePairs (e ∷ es) eps ds h =
      fan_events-UniquePairs es eps (round e eps ds)
        (elim (is_recent now e)
          as (λ b. UniquePairs (if b then fan_event new_id now e eps ds else ds)) [
            | true ↦ fan_event-UniquePairs e eps ds h
            | false ↦ h
          ])

  -- What is covered is left alone.
  fan_event_done :
      (e : WebhookEvent) (eps : List WebhookEndpoint) (ds : List WebhookDelivery)
      → Covers e eps ds
      → fan_event new_id now e eps ds ≡ ds
  unfolding fan_event insert_delivery
  fan_event_done e [] ds h = refl
  fan_event_done e (ep ∷ eps) ds (here, rest) =
      let same : step e ep ds ≡ ds = ground arith in
      ap (λ d. fan_event new_id now e eps d) same ∙ fan_event_done e eps ds rest

  fan_events_done :
      (es : List WebhookEvent) (eps : List WebhookEndpoint) (ds : List WebhookDelivery)
      → CoversAll now es eps ds
      → fan_events new_id now es eps ds ≡ ds
  unfolding fan_events
  fan_events_done [] eps ds h = refl
  fan_events_done (e ∷ es) eps ds (here, rest) =
      let same : round e eps ds ≡ ds = elim here [
        | inl old ↦ rw old refl
        | inr c ↦
            elim (is_recent now e)
              as (λ b. (if b then fan_event new_id now e eps ds else ds) ≡ ds) [
                | true ↦ fan_event_done e eps ds c
                | false ↦ refl
              ]
      ] in
      ap (λ d. fan_events new_id now es eps d) same ∙ fan_events_done es eps ds rest

-- The fan-out never makes a second delivery: if there is at most one delivery for each event and
-- endpoint, then so there is afterwards, and a second fan-out at the same time, with whatever new
-- ids, changes nothing.
pub fan_out_once :
    (new_id new_id' : Uuid → Uuid → Uuid) (now : Time) (db : Db)
    → UniquePairs db.deliveries
    → UniquePairs (fan_out new_id now db).deliveries
      × (fan_out new_id' now (fan_out new_id now db) ≡ fan_out new_id now db)
unfolding fan_out
fan_out_once new_id new_id' now db h = (
  fan_events-UniquePairs new_id now db.events db.endpoints db.deliveries h,
  ap (λ ds. record db { deliveries = ds })
      (fan_events_done new_id' now db.events db.endpoints
        (fan_events new_id now db.events db.endpoints db.deliveries)
        (fan_events-CoversAll new_id now db.events db.endpoints db.deliveries)),
)
