-- ===== src/InvoiceService/Created.antt =====
-- What the creation of an invoice promises (`create` of
-- crates/invoice-service/src/services/invoice_service.rs).
use invoice_payment_service.Prelude.{◌+◌, ◌≡◌, false, some}
use invoice_payment_service.Prelude.Int.{ℤ}
use invoice_payment_service.Errors.{AppError, Result, ok, err}
use invoice_payment_service.Money.{from_cents}
use invoice_payment_service.Domain.{Uuid}
use invoice_payment_service.Domain.Invoice.{draft, CreateInvoiceRequest, InvoiceResponse}
use invoice_payment_service.Domain.Webhook.{invoice_created, Payload.created, WebhookEvent}
use invoice_payment_service.Table.{find, exists, insert}
use invoice_payment_service.Db.{Db}
use invoice_payment_service.InvoiceRepo.{invoice_is, new_invoice, sum_items}
use invoice_payment_service.WebhookEvents.{new_event}
use invoice_payment_service.InvoiceService.{NewInvoice}
use invoice_payment_service.InvoiceService.Items.{items_total, SameItemsElsewhere}

-- The event that `create` puts into the outbox.
abbrev pub created_event : NewInvoice → Uuid → Uuid → ℤ → Db → WebhookEvent
created_event ids business_id customer_id total =
    new_event ids.event_id business_id invoice_created ids.invoice_id
      (created ids.invoice_id customer_id "draft" total "USD") ids.now

-- What `create` promises, for the total that it stores.
abbrev pub CreatesWith :
    ℤ
    → NewInvoice
    → Uuid
    → CreateInvoiceRequest
    → Db
    → Result InvoiceResponse AppError × Db
    → Type 0
CreatesWith total ids business_id req db (ok resp, db') =
    (resp.total_cents ≡ total)
    × (resp.state ≡ draft)
    × (exists (invoice_is ids.invoice_id) db.invoices ≡ false)
    × SameItemsElsewhere ids.invoice_id db db'
    × (sum_items ids.invoice_id db' ≡ total)
    × (find (invoice_is ids.invoice_id) db'.invoices
        ≡ some (record (new_invoice ids.invoice_id business_id req.customer_id ids.now) {
          total_cents = from_cents total;
        }))
    × (db' ≡ record db {
      invoices =
          insert
            (record (new_invoice ids.invoice_id business_id req.customer_id ids.now) {
              total_cents = from_cents total;
            })
            db.invoices;
      line_items = db'.line_items;
      events = insert (created_event ids business_id req.customer_id total db) db.events;
      next_sequence = db.next_sequence + 1;
    })
CreatesWith total ids business_id req db (err e, db') = db' ≡ db

abbrev pub IsCreated :
    NewInvoice → Uuid → CreateInvoiceRequest → Db → Result InvoiceResponse AppError × Db → Type 0
IsCreated ids business_id req db r =
    CreatesWith (items_total req.line_items) ids business_id req db r
