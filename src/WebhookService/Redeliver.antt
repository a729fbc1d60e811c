-- ===== src/WebhookService/Redeliver.antt =====
-- The manual replay of a delivery, together with the dispatcher's lease.
use invoice_payment_service.Prelude.{
  ◌==◌, ◌≡◌, ◌∙◌, ◌⊎◌, inl, inr, refl, true, false, some, arith, Bool-cases, if◌then◌else◌,
}
use invoice_payment_service.Errors.{not_found, ok, err}
use invoice_payment_service.Domain.{Uuid, Time}
use invoice_payment_service.Domain.Webhook.{WebhookDelivery}
use invoice_payment_service.Table.{find, exists, update, count}
use invoice_payment_service.Table.Laws.{
  find-update, count_of_not_exists, count_of_exists, exists_of_find, exists_of_found,
}
use invoice_payment_service.Db.{Db}
use invoice_payment_service.Dispatcher.{delivery_is, is_due}
use invoice_payment_service.WebhookService.{
  redeliver, redeliverable, reset_delivery, is_failed_or_dead,
}

count-cases :
    (business_id id : Uuid) (db : Db)
    → (exists (redeliverable business_id id) db.deliveries ≡ true)
        × ((count (redeliverable business_id id) db.deliveries == 0) ≡ false)
      ⊎ (exists (redeliverable business_id id) db.deliveries ≡ false)
        × ((count (redeliverable business_id id) db.deliveries == 0) ≡ true)
count-cases business_id id db =
    elim (Bool-cases (exists (redeliverable business_id id) db.deliveries)) [
      | inl h ↦
          inl (h, ground (arith, count_of_exists (redeliverable business_id id) db.deliveries h))
      | inr h ↦
          inr
            (h, ground (arith, count_of_not_exists (redeliverable business_id id) db.deliveries h))
    ]

keeps_id :
    (now : Time) (business_id id other : Uuid) (d : WebhookDelivery)
    → ((if redeliverable business_id id d then reset_delivery now d else d).id == other)
      ≡ (d.id == other)
keeps_id now business_id id other d = ground arith

find_redelivered :
    (now : Time) (business_id id : Uuid) (db : Db) (d : WebhookDelivery)
    → find (delivery_is id) db.deliveries ≡ some d
    → find
        (delivery_is id)
        (update (redeliverable business_id id) (reset_delivery now) db.deliveries)
      ≡ some (if redeliverable business_id id d then reset_delivery now d else d)
find_redelivered now business_id id db d h = rw (
  find-update (delivery_is id) (redeliverable business_id id) (reset_delivery now) db.deliveries
      (keeps_id now business_id id id),
  h,
)

meets :
    (business_id id : Uuid) (d : WebhookDelivery)
    → (d.id == id) ≡ true
    → d.business_id ≡ business_id
    → is_failed_or_dead d.status ≡ true
    → redeliverable business_id id d ≡ true
meets business_id id d h k f = ground arith

redeliver_found :
    (now : Time) (business_id id : Uuid) (db : Db)
    → exists (redeliverable business_id id) db.deliveries ≡ true
    → redeliver now business_id id db ≡ (
      ok tt,
      record db {
        deliveries = update (redeliverable business_id id) (reset_delivery now) db.deliveries;
      },
    )
unfolding redeliver
redeliver_found now business_id id db h =
    ground (arith, count_of_exists (redeliverable business_id id) db.deliveries h)

-- The delivery with an id, if it is a failed or dead one of the business, is found after its replay as pending with no attempts
-- counted, and it is due at once.
pub redeliver_due :
    (now : Time) (business_id id : Uuid) (db : Db) (d : WebhookDelivery)
    → find (delivery_is id) db.deliveries ≡ some d
    → d.business_id ≡ business_id
    → is_failed_or_dead d.status ≡ true
    → ((redeliver now business_id id db).0 ≡ ok tt)
      × (find (delivery_is id) (redeliver now business_id id db).1.deliveries
          ≡ some (reset_delivery now d))
      × (is_due now (reset_delivery now d) ≡ true)
redeliver_due now business_id id db d h k f =
    let m = meets business_id id d (exists_of_find (delivery_is id) d db.deliveries h).1 k f in
    let e =
      redeliver_found now business_id id db
        (exists_of_found (delivery_is id) (redeliverable business_id id) d db.deliveries h m) in
    rw e (refl, find_redelivered now business_id id db d h ∙ rw m refl, ground arith)

-- A replay that finds no failed or dead delivery of the business answers 404 and changes nothing.
pub redeliver_missing :
    (now : Time) (business_id id : Uuid) (db : Db)
    → exists (redeliverable business_id id) db.deliveries ≡ false
    → redeliver now business_id id db ≡ (err (not_found "no failed/dead delivery with that id"), db)
unfolding redeliver
redeliver_missing now business_id id db h =
    ground (arith, count_of_not_exists (redeliverable business_id id) db.deliveries h)
