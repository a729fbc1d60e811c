-- ===== src/InvoiceService.antt =====
-- Invoice use-cases (crates/invoice-service/src/services/invoice_service.rs): creation with a total
-- that the server computes, retrieval, and the state transitions.
pub mod Lifecycle
pub mod Transition
pub mod Moves
pub mod Items
pub mod Created
pub mod Creation
pub mod Listing
use invoice_payment_service.Prelude.{
  ℕ, ◌+◌, String, Bool, not, List, [], ◌∷◌, ◌++◌, ◌==◌, ◌&&◌, if◌then◌else◌, Text.trim,
  Text.is_empty, Text.concat, Text.decimal,
}
use invoice_payment_service.Prelude.Int.{pos, leb_ℤ, ltb_ℤ}
use invoice_payment_service.Errors.{
  FieldError, field_error, AppError, not_found, validation, invalid_state_transition, Result, ok,
  err,
}
use invoice_payment_service.Domain.{Uuid, Time}
use invoice_payment_service.Domain.Invoice.{
  InvoiceState, open_, void, uncollectible, as_str, state_eq, can_transition_to, Invoice,
  CreateLineItem, CreateInvoiceRequest, InvoiceResponse, from_parts,
}
use invoice_payment_service.Domain.Webhook.{invoice_created, Payload.created}
use invoice_payment_service.Domain.Customer.{Customer}
use invoice_payment_service.Table.{exists}
use invoice_payment_service.Db.{Db, Action, pure, query, ok_or, transaction, fail_if, ◌>>=◌, ◌>>◌}
use invoice_payment_service.InvoiceRepo
use invoice_payment_service.InvoiceRepo.{
  insert_invoice, insert_line_item, as_i32, sync_total, list_line_items,
}
use invoice_payment_service.WebhookEvents.{emit_event}

-- `format!("line_items[{i}].{name}")`
abbrev item_field : ℕ → String → String
item_field i name = concat ("line_items[" ∷ decimal i ∷ "]." ∷ name ∷ [])

-- `if b { errors.push(e) }`
abbrev push_if : Bool → FieldError → List FieldError → List FieldError
push_if b e rest = if b then e ∷ rest else rest

-- The loop of `validate_line_items` from index `i` on: the errors that it pushes, in order.
unfoldable pub item_errors : ℕ → List CreateLineItem → List FieldError
item_errors i [] = []
item_errors i (li ∷ items) =
    push_if (is_empty (trim li.description))
      (field_error (item_field i "description") "must not be empty")
      (push_if (leb_ℤ li.quantity (pos 0))
        (field_error (item_field i "quantity") "must be greater than 0")
        (push_if (ltb_ℤ li.unit_amount_cents (pos 0))
          (field_error (item_field i "unit_amount_cents") "must not be negative")
          (item_errors (i + 1) items)))

abbrev no_items : List CreateLineItem → List FieldError
no_items [] = field_error "line_items" "at least one line item is required" ∷ []
no_items (li ∷ items) = []

abbrev ok_if_no_errors : List FieldError → Result (Unit {0}) AppError
ok_if_no_errors [] = ok tt
ok_if_no_errors (e ∷ errors) = err (validation (e ∷ errors))

-- `validate_line_items`
unfoldable pub validate_line_items : CreateInvoiceRequest → Result (Unit {0}) AppError
unfolding item_errors
validate_line_items req = ok_if_no_errors (no_items req.line_items ++ item_errors 0 req.line_items)

-- What `create` takes from outside: the ids of `new_id` and the transaction's `now()`.
pub record NewInvoice : Type 0 where
  pub invoice_id : Uuid
  pub item_id : ℕ → Uuid
  pub event_id : Uuid
  pub now : Time

-- The loop over the line items, from position `i` on.
unfoldable pub insert_items : NewInvoice → Uuid → ℕ → List CreateLineItem → Action Unit
insert_items ids invoice_id i [] = pure tt
insert_items ids invoice_id i (li ∷ items) = do
  query (
      insert_line_item (ids.item_id i) invoice_id li.description li.quantity li.unit_amount_cents
        (as_i32 i))
  insert_items ids invoice_id (i + 1) items

abbrev pub customer_of : Uuid → Uuid → Customer → Bool
customer_of business_id id c = c.id == id && c.business_id == business_id

-- The transaction of `create` behind the loop: the total, the items and the event.
unfoldable pub finish_create : NewInvoice → Uuid → Invoice → Action InvoiceResponse
finish_create ids business_id invoice = do
  total ← query (sync_total invoice.id ids.now)
  items ← query (list_line_items invoice.id)
  query (
      emit_event ids.event_id business_id invoice_created invoice.id
        (created invoice.id invoice.customer_id "draft" total.cents "USD") ids.now)
  pure (from_parts (record invoice { total_cents = total }) items)

-- The transaction of `create`.
unfoldable pub create_tx : NewInvoice → Uuid → CreateInvoiceRequest → Action InvoiceResponse
create_tx ids business_id req = do
  invoice ← query (insert_invoice ids.invoice_id business_id req.customer_id ids.now)
  insert_items ids invoice.id 0 req.line_items
  finish_create ids business_id invoice

-- `create`
unfoldable pub create : NewInvoice → Uuid → CreateInvoiceRequest → Action InvoiceResponse
unfolding create_tx finish_create insert_items
create ids business_id req = do
  (λ db. (validate_line_items req, db))
  (λ db. (
    if exists (customer_of business_id req.customer_id) db.customers
        then ok tt
        else err (not_found "customer not found"),
    db,
  ))
  transaction (create_tx ids business_id req)

-- `get`
unfoldable pub get : Uuid → Uuid → Action InvoiceResponse
get business_id id = do
  found ← query (InvoiceRepo.get business_id id)
  invoice ← ok_or found (not_found "invoice not found")
  items ← query (list_line_items id)
  pure (from_parts invoice items)

-- `transition`. Between its read and its UPDATE another request may move the invoice: `race` is
-- what the others do to the database in that time.
unfoldable pub transition :
    (race : Db → Db) → Uuid → Uuid → InvoiceState → Time → Action InvoiceResponse
transition race business_id id to now = do
  found ← query (InvoiceRepo.get business_id id)
  current ← ok_or found (not_found "invoice not found")
  let illegal = invalid_state_transition (as_str current.state) (as_str to)
  fail_if (state_eq current.state to) illegal
  fail_if (not (can_transition_to current.state to)) illegal
  (λ db. (ok tt, race db))
  moved ← query (InvoiceRepo.transition business_id id current.state to now)
  updated ← ok_or moved illegal
  items ← query (list_line_items id)
  pure (from_parts updated items)

-- `finalize`, `void` and `mark_uncollectible`
unfoldable pub finalize : (race : Db → Db) → Uuid → Uuid → Time → Action InvoiceResponse
unfolding transition
finalize race business_id id = transition race business_id id open_

unfoldable pub void_invoice : (race : Db → Db) → Uuid → Uuid → Time → Action InvoiceResponse
unfolding transition
void_invoice race business_id id = transition race business_id id void

unfoldable pub mark_uncollectible : (race : Db → Db) → Uuid → Uuid → Time → Action InvoiceResponse
unfolding transition
mark_uncollectible race business_id id = transition race business_id id uncollectible
