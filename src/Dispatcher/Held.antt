-- ===== src/Dispatcher/Held.antt =====
-- What a lease keeps other dispatchers from, while its holder has not recorded the end of the send
-- (`deliver_batch` of crates/invoice-service/src/webhooks/dispatcher.rs).
use mathlib.Core.Path.{subst}
use invoice_payment_service.Prelude.{
  ℕ, ◌+◌, ◌≤◌, ◌≡◌, refl, sym, ◌∙◌, ap, Bool, true, false, ◌&&◌, List, [], ◌∷◌, leb, arith, ◌==◌,
  ==_iff, Bool-cases, inl, inr,
}
use invoice_payment_service.Prelude.Int.{ℤ}
use invoice_payment_service.Domain.{Uuid, Time, seconds}
use invoice_payment_service.Domain.Webhook.{WebhookDelivery, WebhookEvent, WebhookEndpoint}
use invoice_payment_service.Table.{exists, update}
use invoice_payment_service.Table.Laws.{exists-insert}
use invoice_payment_service.Db.{Db}
use invoice_payment_service.Reconciler.{is_in}
use invoice_payment_service.WebhookService.{redeliver, redeliverable, reset_delivery}
use invoice_payment_service.Dispatcher.{
  Sent, due_ids, lease, leased, picked, is_due, delivery_is, is_recent, matches, new_delivery,
  insert_delivery, fan_event, fan_events, fan_out, record_sent,
}
use invoice_payment_service.Dispatcher.Settling.{record_sent-Writes}
use invoice_payment_service.Dispatcher.Leases.{not_due-not_picked, leased_not_due}

-- What happens to the outbox from one database to another while the send of the delivery `id` is under
-- way: fan-outs, leases of other dispatchers at any time, the ends of other sends, manual replays of
-- other deliveries, and whatever leaves the deliveries alone.
pub data Meanwhile (id : Uuid) : Db → Db → Type 0 where
  here : {db : Db} → Meanwhile id db db
  fanned_out :
      (new_id : Uuid → Uuid → Uuid) (now : Time) {db1 db2 : Db}
      → ((event_id endpoint_id : Uuid) → (new_id event_id endpoint_id == id) ≡ false)
      → Meanwhile id db1 db2
      → Meanwhile id db1 (fan_out new_id now db2)
  leased_again :
      (now : Time) {db1 db2 : Db} → Meanwhile id db1 db2 → Meanwhile id db1 (lease now db2)
  recorded :
      (max_attempts : ℤ) (draw : ℕ → ℕ) (now : Time) (other : Uuid) (attempts : ℕ) (sent : Sent)
      {db1 db2 : Db}
      → (id == other) ≡ false
      → Meanwhile id db1 db2
      → Meanwhile id db1 (record_sent max_attempts draw now other attempts sent db2)
  redelivered :
      (now : Time) (business_id other : Uuid) {db1 db2 : Db}
      → (id == other) ≡ false
      → Meanwhile id db1 db2
      → Meanwhile id db1 (redeliver now business_id other db2).1
  elsewhere :
      {db1 db2 db3 : Db}
      → db3.deliveries ≡ db2.deliveries
      → Meanwhile id db1 db2
      → Meanwhile id db1 db3

module _ (id : Uuid) (later : Time) where
  abbrev waiting : WebhookDelivery → Bool
  waiting d = is_due later d && delivery_is id d

  -- An UPDATE that passes over the rows with the id.
  others_updated :
      (p : WebhookDelivery → Bool) (f : WebhookDelivery → WebhookDelivery)
      (t : List WebhookDelivery)
      → ((d : WebhookDelivery) → (f d).id ≡ d.id)
      → ((d : WebhookDelivery) → d.id ≡ id → p d ≡ false)
      → exists waiting (update p f t) ≡ exists waiting t
  unfolding exists update
  others_updated p f [] keep over = refl
  others_updated p f (d ∷ t) keep over = elim (Bool-cases (d.id == id)) [
    | inl same ↦
        rw (over d ((==_iff d.id id).0 same)) (ground (arith, others_updated p f t keep over))
    | inr other ↦ elim (Bool-cases (p d)) [
      | inl hit ↦ rw (hit, keep d, other) (ground (arith, others_updated p f t keep over))
      | inr miss ↦ rw (miss, other) (ground (arith, others_updated p f t keep over))
    ]
  ]

  inserted :
      (d : WebhookDelivery) (t : List WebhookDelivery)
      → (d.id == id) ≡ false
      → exists waiting t ≡ false
      → exists waiting (insert_delivery d t) ≡ false
  unfolding insert_delivery
  inserted d t other h = ground (arith, exists-insert waiting d t)

  module _ (new_id : Uuid → Uuid → Uuid) (now : Time)
      (new : (event_id endpoint_id : Uuid) → (new_id event_id endpoint_id == id) ≡ false) where
    event_fanned :
        (e : WebhookEvent) (eps : List WebhookEndpoint) (t : List WebhookDelivery)
        → exists waiting t ≡ false
        → exists waiting (fan_event new_id now e eps t) ≡ false
    unfolding fan_event
    event_fanned e [] t h = h
    event_fanned e (ep ∷ eps) t h = elim (Bool-cases (matches e ep)) [
      | inl hit ↦ rw hit (
          event_fanned e eps _
            (inserted (new_delivery (new_id e.id ep.id) now e ep) t (new e.id ep.id) h))
      | inr miss ↦ rw miss (event_fanned e eps t h)
    ]

    events_fanned :
        (es : List WebhookEvent) (eps : List WebhookEndpoint) (t : List WebhookDelivery)
        → exists waiting t ≡ false
        → exists waiting (fan_events new_id now es eps t) ≡ false
    unfolding fan_events
    events_fanned [] eps t h = h
    events_fanned (e ∷ es) eps t h = elim (Bool-cases (is_recent now e)) [
      | inl recent ↦ rw recent (events_fanned es eps _ (event_fanned e eps t h))
      | inr old ↦ rw old (events_fanned es eps t h)
    ]

-- Not due at any time up to the limit.
abbrev Waits : Uuid → Time → Db → Type 0
Waits id limit db =
    (later : Time)
    → later ≤ limit
    → exists (λ d. is_due later d && delivery_is id d) db.deliveries ≡ false

lease-Waits :
    (id : Uuid) (limit now : Time) (db : Db) → Waits id limit db → Waits id limit (lease now db)
unfolding lease
lease-Waits id limit now db h later early = elim (Bool-cases (is_in (due_ids now db) id)) [
  | inr free ↦
      others_updated id later (picked (due_ids now db)) (leased now) db.deliveries (λ d. refl)
        (λ d same. ap (is_in (due_ids now db)) same ∙ free)
      ∙ h later early
  | inl taken ↦ elim (Bool-cases (leb now limit)) [
    | inl soon ↦ absurd (ground (arith, not_due-not_picked now id db (h now (ground arith))))
    | inr past ↦ leased_not_due now later (due_ids now db) id db.deliveries taken (ground arith)
  ]
]

redeliver-Waits :
    (id : Uuid) (limit now : Time) (business_id other : Uuid) (db : Db)
    → (id == other) ≡ false
    → Waits id limit db
    → Waits id limit (redeliver now business_id other db).1
unfolding redeliver
redeliver-Waits id limit now business_id other db apart h later early = ground (
  arith,
  h later early,
  others_updated id later (redeliverable business_id other) (reset_delivery now) db.deliveries
      (λ d. refl) (λ d same. rw (same, apart) refl),
)

Meanwhile-Waits :
    (id : Uuid) (limit : Time) {db db' : Db}
    → Meanwhile id db db'
    → Waits id limit db
    → Waits id limit db'
unfolding fan_out
Meanwhile-Waits id limit here h = h
Meanwhile-Waits id limit (fanned_out new_id now {db2 = db2} new m) h = λ later early.
    events_fanned id later new_id now new db2.events db2.endpoints db2.deliveries
      (Meanwhile-Waits id limit m h later early)
Meanwhile-Waits id limit (leased_again now {db2 = db2} m) h =
    lease-Waits id limit now db2 (Meanwhile-Waits id limit m h)
Meanwhile-Waits id limit (recorded max draw now other n sent {db2 = db2} apart m) h = λ later early.
    let (f, keep, pair, write) = record_sent-Writes max draw now other n sent in
    subst (λ db. exists (λ d. is_due later d && delivery_is id d) db.deliveries ≡ false)
      (sym (write db2))
      (others_updated id later (delivery_is other) f db2.deliveries keep
          (λ d same. rw (same, apart) refl)
        ∙ Meanwhile-Waits id limit m h later early)
Meanwhile-Waits id limit (redelivered now b other {db2 = db2} apart m) h =
    redeliver-Waits id limit now b other db2 apart (Meanwhile-Waits id limit m h)
Meanwhile-Waits id limit (elsewhere same m) h = λ later early.
    ap (exists (λ d. is_due later d && delivery_is id d)) same
    ∙ Meanwhile-Waits id limit m h later early

-- A delivery that a dispatcher has leased is not picked by any batch that is claimed up to 30 seconds
-- after the lease, whatever comes in between of fan-outs, whose new ids are not that of the delivery,
-- leases of other dispatchers at any time, ends of other sends, manual replays of other deliveries, and
-- transactions that leave the deliveries alone: as long as the end of its own send is not recorded, and
-- the delivery itself is not replayed.
pub lease_excludes :
    (now later : Time) (db db' : Db) (id : Uuid)
    → is_in (due_ids now db) id ≡ true
    → Meanwhile id (lease now db) db'
    → later ≤ now + seconds 30
    → is_in (due_ids later db') id ≡ false
unfolding lease
lease_excludes now later db db' id held m early = not_due-not_picked later id db' (
    Meanwhile-Waits id (now + seconds 30) m
      (λ t soon. leased_not_due now t (due_ids now db) id db.deliveries held soon) later early)
