-- ===== src/InvoiceService/Creation.antt =====
-- Creation of an invoice (`create` of crates/invoice-service/src/services/invoice_service.rs).
use invoice_payment_service.Prelude.{
  ◌+◌, ◌≡◌, refl, ◌∙◌, sym, ap, inl, inr, Bool, true, false, List, arith, if◌then◌else◌, ==_self,
}
use invoice_payment_service.Prelude.Int.{ℤ, pos, ◌+ℤ◌, int_laws}
use invoice_payment_service.Errors.{AppError, not_found, Result, ok, err}
use mathlib.Core.Path.{subst}
use invoice_payment_service.Money.{Money, from_cents}
use invoice_payment_service.Domain.{Uuid}
use invoice_payment_service.Domain.Invoice.{
  LineItem, CreateInvoiceRequest, Invoice, InvoiceResponse, from_parts,
}
use invoice_payment_service.Domain.Webhook.{invoice_created, Payload.created}
use invoice_payment_service.Table.{exists, insert, where_, order_by}
use invoice_payment_service.Table.Laws.{update-insert, update_none, find-update-insert}
use invoice_payment_service.Db.{Db, Action, query, pure, transaction, unique_violation, ◌>>=◌, ◌>>◌}
use invoice_payment_service.InvoiceRepo.{
  invoice_is, item_of, item_before, new_invoice, insert_invoice, sum_items, list_line_items,
}
use invoice_payment_service.WebhookEvents.{emit_event}
use invoice_payment_service.Outcomes.{sync_total-cases, synced, emit_event-cases}
use invoice_payment_service.InvoiceService.{
  customer_of, NewInvoice, validate_line_items, insert_items, finish_create, create_tx, create,
}
use invoice_payment_service.InvoiceService.Items.{
  items_total, SameItemsElsewhere, Adds, insert_items-Adds,
}
use invoice_payment_service.InvoiceService.Created.{CreatesWith, IsCreated, created_event}

module _ (ids : NewInvoice) (business_id : Uuid) (req : CreateInvoiceRequest) (db : Db) where
  abbrev inv : Invoice
  inv = new_invoice ids.invoice_id business_id req.customer_id ids.now

  -- What the line items add up to in the end.
  abbrev asked : ℤ
  asked = sum_items ids.invoice_id db +ℤ items_total req.line_items

  -- The transaction's database after the loop: the new invoice, and some line items.
  abbrev with_items : List LineItem → Db
  with_items lines = record db { invoices = insert inv db.invoices; line_items = lines }

  abbrev Done : Result InvoiceResponse AppError × Db → Type 0
  Done r = CreatesWith asked ids business_id req db (transaction (λ _. r) db)

  -- The new row with its total.
  stored :
      (lines : List LineItem)
      → exists (invoice_is ids.invoice_id) db.invoices ≡ false
      → (synced ids.invoice_id ids.now (with_items lines)).invoices
        ≡ insert
            (record inv { total_cents = from_cents (sum_items ids.invoice_id (with_items lines)) })
            db.invoices
  stored lines fresh =
      let f : Invoice → Invoice = λ r. record r {
        total_cents = from_cents (sum_items ids.invoice_id (with_items lines));
        updated_at = ids.now;
      } in
      update-insert (invoice_is ids.invoice_id) f inv db.invoices
      ∙ rw (update_none (invoice_is ids.invoice_id) f db.invoices fresh, ==_self ids.invoice_id)

  finish_create-Done :
      (lines : List LineItem)
      → exists (invoice_is ids.invoice_id) db.invoices ≡ false
      → sum_items ids.invoice_id (with_items lines) ≡ asked
      → SameItemsElsewhere ids.invoice_id db (with_items lines)
      → Done (finish_create ids business_id inv (with_items lines))
  unfolding finish_create list_line_items from_parts sum_items
  finish_create-Done lines fresh sum elsewhere =
      let db2 = with_items lines in
      let total = sum_items ids.invoice_id db2 in
      let payload = created ids.invoice_id req.customer_id "draft" total "USD" in
      let is_new = invoice_is ids.invoice_id in
      let items = order_by item_before (where_ (item_of ids.invoice_id) lines) in
      let totalled : ℤ → Invoice = λ t. record inv { total_cents = from_cents t } in
      let tail : Money → Action InvoiceResponse = λ total. do
        items ← query (list_line_items inv.id)
        query (
            emit_event ids.event_id business_id invoice_created inv.id
              (created inv.id inv.customer_id "draft" total.cents "USD") ids.now)
        pure (from_parts (record inv { total_cents = total }) items)
      in let answer : Action InvoiceResponse = pure (from_parts (totalled total) items) in
        elim (sync_total-cases ids.invoice_id ids.now db2) [
          | inl (e, refused) ↦ subst (λ r. Done ((query (λ _. r) >>= tail) db2)) (sym refused) refl
          | inr done ↦
              subst (λ r. Done ((query (λ _. r) >>= tail) db2)) (sym done)
                (elim (emit_event-cases ids.event_id business_id invoice_created ids.invoice_id
                  payload ids.now (synced ids.invoice_id ids.now db2)) [
                    | inl (e, refused) ↦
                        subst (λ r. Done ((query (λ _. r) >> answer) db2)) (sym refused) refl
                    | inr sent ↦
                        subst (λ r. Done ((query (λ _. r) >> answer) db2)) (sym sent)
                          (
                            sum,
                            refl,
                            fresh,
                            elsewhere,
                            sum,
                            find-update-insert is_new is_new
                                  (λ r. record r {
                                    total_cents = from_cents total;
                                    updated_at = ids.now;
                                  })
                                  inv db.invoices (λ s. ground arith) fresh (==_self ids.invoice_id)
                                ∙ rw (==_self ids.invoice_id, sum),
                            ap
                                  (λ i. record db {
                                    invoices = i;
                                    line_items = lines;
                                    events =
                                        insert
                                          (created_event ids business_id req.customer_id total db)
                                          db.events;
                                    next_sequence = db.next_sequence + 1;
                                  })
                                  (stored lines fresh)
                                ∙ ap
                                    (λ t. record db {
                                      invoices = insert (totalled t) db.invoices;
                                      line_items = lines;
                                      events =
                                          insert
                                            (created_event ids business_id req.customer_id t db)
                                            db.events;
                                      next_sequence = db.next_sequence + 1;
                                    })
                                    sum,
                          )
                  ])
        ]

  after_items-Done :
      (r : Result (Unit {0}) AppError × Db)
      → exists (invoice_is ids.invoice_id) db.invoices ≡ false
      → Adds ids.invoice_id
          (items_total req.line_items)
          (record db { invoices = insert inv db.invoices })
          r
      → Done (((λ _. r) >> finish_create ids business_id inv) db)
  unfolding sum_items
  after_items-Done (ok u, db2) fresh h =
      subst (λ d. Done (finish_create ids business_id inv d)) (sym h.2)
        (finish_create-Done db2.line_items fresh h.0 h.1)
  after_items-Done (err e, db2) fresh h = refl

  create_tx-Done : Done (create_tx ids business_id req db)
  unfolding create_tx insert_invoice
  create_tx-Done =
      let go : (b : Bool)
          → exists (invoice_is ids.invoice_id) db.invoices ≡ b
          → Done (
              (query (λ _.
                    if b
                    then (err (unique_violation "invoices_pkey"), db)
                    else (ok inv, with_items db.line_items))
                  >>= λ invoice.
                      (insert_items ids invoice.id 0 req.line_items
                        >> finish_create ids business_id invoice))
                db) =
        elim [
          | true ↦ λ taken. refl
          | false ↦ λ fresh.
              after_items-Done
                (insert_items ids ids.invoice_id 0 req.line_items (with_items db.line_items)) fresh
                (insert_items-Adds ids ids.invoice_id 0 req.line_items (with_items db.line_items))
        ] in
      go (exists (invoice_is ids.invoice_id) db.invoices) refl

  -- The checks before the transaction refuse, or hand over to it.
  checked-IsCreated :
      (valid : Result (Unit {0}) AppError) (known : Result (Unit {0}) AppError)
      → Done (create_tx ids business_id req db)
      → CreatesWith asked ids business_id req db (
          ((λ db'. (valid, db'))
              >> ((λ db'. (known, db')) >> transaction (create_tx ids business_id req)))
            db)
  checked-IsCreated (ok u) (ok v) h = h
  checked-IsCreated (ok u) (err e) h = refl
  checked-IsCreated (err e) known h = refl

-- Without any condition: the total is that of the items with the invoice's id.
pub create-CreatesWith :
    (ids : NewInvoice) (business_id : Uuid) (req : CreateInvoiceRequest) (db : Db)
    → CreatesWith
        (sum_items ids.invoice_id db +ℤ items_total req.line_items)
        ids
        business_id
        req
        db
        (create ids business_id req db)
unfolding create
create-CreatesWith ids business_id req db =
    checked-IsCreated ids business_id req db (validate_line_items req)
      (if exists (customer_of business_id req.customer_id) db.customers
        then ok tt
        else err (not_found "customer not found"))
      (create_tx-Done ids business_id req db)

-- If no line item refers to the new invoice's id yet, `create` either fails and leaves the whole
-- database as it was, or answers with a draft whose total is the sum of quantity times unit amount
-- over the request's line items; then no invoice had the id, the stored invoice has this total, which
-- is what its stored items add up to, and exactly one event, `invoice.created` with this total, has
-- been added to the outbox; apart from these and the new invoice's line items nothing has changed.
pub create-IsCreated :
    (ids : NewInvoice) (business_id : Uuid) (req : CreateInvoiceRequest) (db : Db)
    → sum_items ids.invoice_id db ≡ pos 0
    → IsCreated ids business_id req db (create ids business_id req db)
create-IsCreated ids business_id req db none_yet =
    subst (λ total. CreatesWith total ids business_id req db (create ids business_id req db))
      (rw none_yet (omega int_laws)) (create-CreatesWith ids business_id req db)
