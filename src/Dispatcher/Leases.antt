-- ===== src/Dispatcher/Leases.antt =====
-- Which deliveries the lease of `deliver_batch` picks, and how long a leased row is not due.
use invoice_payment_service.Prelude.{
  ℕ, zero, suc, ◌+◌, ◌≤◌, ◌≡◌, refl, ◌∙◌, ap, Bool, true, false, ◌&&◌, List, [], ◌∷◌, map, take,
  arith, ◌==◌, ==_iff, Bool-cases, inl, inr,
}
use invoice_payment_service.Domain.{Uuid, Time, seconds}
use invoice_payment_service.Domain.Webhook.{WebhookDelivery}
use invoice_payment_service.Table.{where_, exists, update, amend, order_by}
use invoice_payment_service.Db.{Db}
use invoice_payment_service.Reconciler.{is_in}
use invoice_payment_service.Pagination.Order.{exists-order_by}
use invoice_payment_service.Dispatcher.{
  batch, due_ids, leased, picked, is_due, next_before, delivery_id, delivery_is,
}

-- An id that is taken from some rows is that of one of them.
not_in_ids :
    (id : Uuid) (n : ℕ) (t : List WebhookDelivery)
    → exists (delivery_is id) t ≡ false
    → is_in (map delivery_id (take n t)) id ≡ false
unfolding exists is_in
not_in_ids id zero t h = refl
not_in_ids id (suc n) [] h = refl
not_in_ids id (suc n) (d ∷ t) h = ground (arith, not_in_ids id n t)

exists-where_ :
    {A : Type 0} (p q : A → Bool) (t : List A) → exists q (where_ p t) ≡ exists (λ r. p r && q r) t
unfolding exists where_
exists-where_ p q [] = refl
exists-where_ p q (r ∷ t) = ground (arith, exists-where_ p q t)

-- A delivery is picked only if a row with its id is due.
pub not_due-not_picked :
    (now : Time) (id : Uuid) (db : Db)
    → exists (λ d. is_due now d && delivery_is id d) db.deliveries ≡ false
    → is_in (due_ids now db) id ≡ false
unfolding due_ids
not_due-not_picked now id db h =
    not_in_ids id batch (order_by next_before (where_ (is_due now) db.deliveries)) (
      exists-order_by next_before (delivery_is id) (where_ (is_due now) db.deliveries)
      ∙ exists-where_ (is_due now) (delivery_is id) db.deliveries
      ∙ h)

amend-leased :
    (now later : Time) (ids : List Uuid) (d : WebhookDelivery)
    → is_in ids d.id ≡ true
    → later ≤ now + seconds 30
    → is_due later (amend (picked ids) (leased now) d) ≡ false
amend-leased now later ids d h k = rw h (ground arith)

amend_keeps_id :
    (now : Time) (ids : List Uuid) (d : WebhookDelivery)
    → (amend (picked ids) (leased now) d).id ≡ d.id
amend_keeps_id now ids d = ground arith

-- A leased row is not due before its lease is over.
pub leased_not_due :
    (now later : Time) (ids : List Uuid) (id : Uuid) (t : List WebhookDelivery)
    → is_in ids id ≡ true
    → later ≤ now + seconds 30
    → exists (λ d. is_due later d && delivery_is id d) (update (picked ids) (leased now) t) ≡ false
unfolding exists update
leased_not_due now later ids id [] h k = refl
leased_not_due now later ids id (d ∷ t) h k =
    rw (amend_keeps_id now ids d) (elim (Bool-cases (d.id == id)) [
      | inl same ↦
          let held : is_in ids d.id ≡ true = ap (is_in ids) ((==_iff d.id id).0 same) ∙ h in
          rw (amend-leased now later ids d held k) (leased_not_due now later ids id t h k)
      | inr other ↦ rw other (ground (arith, leased_not_due now later ids id t h k))
    ])
