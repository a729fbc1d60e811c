-- ===== src/Outcomes.antt =====
-- The ways in which a statement on invoices or events ends: refused with nothing written, or done.
use invoice_payment_service.Prelude.{◌+◌, String, ◌≡◌, ◌⊎◌, inl, inr, false, Bool-cases}
use invoice_payment_service.Prelude.Int.{pos, ltb_ℤ}
use invoice_payment_service.Errors.{SqlxError, row_not_found, Result, ok, err}
use invoice_payment_service.Money.{from_cents, fits_i64}
use invoice_payment_service.Domain.{Uuid, Time}
use invoice_payment_service.Domain.Webhook.{Payload}
use invoice_payment_service.Table.{exists, insert, update}
use invoice_payment_service.Db.{Db, unique_violation, out_of_range, check_violation}
use invoice_payment_service.InvoiceRepo.{invoice_is, sum_items, sync_total}
use invoice_payment_service.WebhookEvents.{event_is, new_event, emit_event}

abbrev Refused : {A : Type 0} → Result A SqlxError × Db → Db → Type 0
Refused r db = (e : SqlxError) × (r ≡ (err e, db))

-- What `sync_total` writes when it is not refused.
abbrev pub synced : Uuid → Time → Db → Db
synced invoice_id now db = record db {
  invoices =
      update (invoice_is invoice_id)
        (λ r. record r { total_cents = from_cents (sum_items invoice_id db); updated_at = now })
        db.invoices;
}

pub sync_total-cases :
    (id : Uuid) (now : Time) (db : Db)
    → Refused (sync_total id now db) db
      ⊎ (sync_total id now db ≡ (ok (from_cents (sum_items id db)), synced id now db))
unfolding sync_total
sync_total-cases id now db = elim (Bool-cases (exists (invoice_is id) db.invoices)) [
  | inr missing ↦ inl (row_not_found, rw missing)
  | inl found ↦ elim (Bool-cases (fits_i64 (sum_items id db))) [
    | inr large ↦ inl (out_of_range, rw (found, large))
    | inl fits ↦ elim (Bool-cases (ltb_ℤ (sum_items id db) (pos 0))) [
      | inl negative ↦
          inl (check_violation "invoices_total_cents_check", rw (found, fits, negative))
      | inr fine ↦ inr (rw (found, fits, fine))
    ]
  ]
]

-- What `emit_event` writes when it is not refused.
abbrev pub emitted : Uuid → Uuid → String → Uuid → Payload → Time → Db → Db
emitted id business_id event_type aggregate_id payload now db = record db {
  events = insert (new_event id business_id event_type aggregate_id payload now db) db.events;
  next_sequence = db.next_sequence + 1;
}

pub emit_event-cases :
    (id business_id : Uuid) (event_type : String) (aggregate_id : Uuid) (payload : Payload)
    (now : Time) (db : Db)
    → Refused (emit_event id business_id event_type aggregate_id payload now db) db
      ⊎ (emit_event id business_id event_type aggregate_id payload now db
          ≡ (ok id, emitted id business_id event_type aggregate_id payload now db))
unfolding emit_event
emit_event-cases id business_id event_type aggregate_id payload now db =
    elim (Bool-cases (exists (event_is id) db.events)) [
      | inl taken ↦ inl (unique_violation "webhook_events_pkey", rw taken)
      | inr free ↦ inr (rw free)
    ]

pub emit_event_new :
    (id business_id : Uuid) (event_type : String) (aggregate_id : Uuid) (payload : Payload)
    (now : Time) (db : Db)
    → exists (event_is id) db.events ≡ false
    → emit_event id business_id event_type aggregate_id payload now db
      ≡ (ok id, emitted id business_id event_type aggregate_id payload now db)
unfolding emit_event
emit_event_new id business_id event_type aggregate_id payload now db free = rw free
