-- ===== src/InvoiceRepo.antt =====
-- Invoice and line-item statements (crates/invoice-service/src/repositories/invoice_repo.rs), with
-- the defaults, the CHECKs and the generated column of migrations/0006_invoices.sql and
-- migrations/0007_line_items.sql. The ids of `new_id` and the transaction's `now()` are arguments.
-- `version`, an `integer` that counts the transitions, is unbounded here.
use invoice_payment_service.Prelude.{
  ℕ, ◌+◌, ◌-◌, ◌%◌, ◌^◌, String, Bool, Option, none, some, List, ◌&&◌, ◌||◌, ltb, ◌==◌,
  if◌then◌else◌,
}
use invoice_payment_service.Prelude.Int.{ℤ, pos, negsuc, ◌*ℤ◌, ltb_ℤ, leb_ℤ}
use invoice_payment_service.Errors.{row_not_found, ok, err}
use invoice_payment_service.Money.{Money, from_cents, fits_i64}
use invoice_payment_service.Domain.{Uuid, Time}
use invoice_payment_service.Domain.Invoice.{
  InvoiceState, draft, open_, void, state_eq, Invoice, LineItem,
}
use invoice_payment_service.Table.{where_, find, exists, update, insert, sum_by, order_by}
use invoice_payment_service.Db.{Db, Statement, unique_violation, out_of_range, check_violation}

abbrev pub invoice_is : Uuid → Invoice → Bool
invoice_is id r = r.id == id

abbrev pub invoice_of : Uuid → Uuid → Invoice → Bool
invoice_of business_id id r = r.id == id && r.business_id == business_id

-- The row that `insert_invoice` inserts, with the column defaults.
abbrev pub new_invoice : Uuid → Uuid → Uuid → Time → Invoice
new_invoice id business_id customer_id now = record {
  id = id;
  business_id = business_id;
  customer_id = customer_id;
  state = draft;
  currency = "USD";
  total_cents = from_cents (pos 0);
  finalized_at = none;
  paid_at = none;
  voided_at = none;
  version = 0;
  created_at = now;
  updated_at = now;
}

-- `insert_invoice`
unfoldable pub insert_invoice : Uuid → Uuid → Uuid → Time → Statement Invoice
insert_invoice id business_id customer_id now db =
    let inv = new_invoice id business_id customer_id now in
    if exists (invoice_is id) db.invoices
    then (err (unique_violation "invoices_pkey"), db)
    else (ok inv, record db { invoices = insert inv db.invoices })

-- `pos as i32`
unfoldable pub as_i32 : ℕ → ℤ
as_i32 n = let r = n % 2 ^ 32 in if ltb r (2 ^ 31) then pos r else negsuc (2 ^ 32 - r - 1)

-- The row that `insert_line_item` inserts; the database generates the amount.
abbrev pub new_item : Uuid → Uuid → String → ℤ → ℤ → ℤ → LineItem
new_item id invoice_id description quantity unit_amount_cents position = record {
  id = id;
  invoice_id = invoice_id;
  description = description;
  quantity = quantity;
  unit_amount_cents = from_cents unit_amount_cents;
  amount_cents = from_cents (quantity *ℤ unit_amount_cents);
  position = position;
}

-- The check that the row fails, the one on the quantity first.
abbrev item_check : ℤ → String
item_check quantity =
    if leb_ℤ quantity (pos 0)
    then "invoice_line_items_quantity_check"
    else "invoice_line_items_unit_amount_cents_check"

-- `insert_line_item`
unfoldable pub insert_line_item : Uuid → Uuid → String → ℤ → ℤ → ℤ → Statement Unit
insert_line_item id invoice_id description quantity unit_amount_cents position db =
    let item = new_item id invoice_id description quantity unit_amount_cents position in
    if fits_i64 item.amount_cents.cents
    then (if leb_ℤ quantity (pos 0) || ltb_ℤ unit_amount_cents (pos 0)
        then (err (check_violation (item_check quantity)), db)
        else if exists (λ (r : LineItem). r.id == id) db.line_items
        then (err (unique_violation "invoice_line_items_pkey"), db)
        else (ok tt, record db { line_items = insert item db.line_items }))
    else (err out_of_range, db)

abbrev pub item_of : Uuid → LineItem → Bool
item_of invoice_id li = li.invoice_id == invoice_id

-- `SELECT COALESCE(SUM(amount_cents), 0) FROM invoice_line_items WHERE invoice_id = $1`
unfoldable pub sum_items : Uuid → Db → ℤ
sum_items invoice_id db =
    sum_by (λ (li : LineItem). li.amount_cents.cents) (where_ (item_of invoice_id) db.line_items)

-- `sync_total`: a sum that is no `bigint`, or is negative, is refused; so is an unknown invoice.
unfoldable pub sync_total : Uuid → Time → Statement Money
sync_total invoice_id now db =
    let total = sum_items invoice_id db in
    if exists (invoice_is invoice_id) db.invoices
    then (if fits_i64 total
        then (if ltb_ℤ total (pos 0)
            then (err (check_violation "invoices_total_cents_check"), db)
            else (
              ok (from_cents total),
              record db {
                invoices =
                    update (invoice_is invoice_id)
                      (λ r. record r { total_cents = from_cents total; updated_at = now })
                      db.invoices;
              },
            ))
        else (err out_of_range, db))
    else (err row_not_found, db)

-- `get`
unfoldable pub get : Uuid → Uuid → Statement (Option Invoice)
get business_id id db = (ok (find (invoice_of business_id id) db.invoices), db)

-- `ORDER BY position, id`
abbrev pub item_before : LineItem → LineItem → Bool
item_before a b =
    ltb_ℤ a.position b.position
    || (leb_ℤ a.position b.position && leb_ℤ b.position a.position && ltb a.id b.id)

-- `list_line_items`
unfoldable pub list_line_items : Uuid → Statement (List LineItem)
list_line_items invoice_id db =
    (ok (order_by item_before (where_ (item_of invoice_id) db.line_items)), db)

-- The row that the UPDATE of `transition` leaves.
abbrev pub transitioned : InvoiceState → Time → Invoice → Invoice
transitioned to now r = record r {
  state = to;
  version = r.version + 1;
  finalized_at = if state_eq to open_ then some now else r.finalized_at;
  voided_at = if state_eq to void then some now else r.voided_at;
  updated_at = now;
}

-- The WHERE of `transition`.
abbrev pub in_state : Uuid → Uuid → InvoiceState → Invoice → Bool
in_state business_id id from r = invoice_of business_id id r && state_eq r.state from

-- `transition`: the row as the UPDATE leaves it, if it was in the state `from`.
unfoldable pub transition :
    Uuid → Uuid → InvoiceState → InvoiceState → Time → Statement (Option Invoice)
transition business_id id from to now db = elim (find (in_state business_id id from) db.invoices) [
  | none ↦ (ok none, db)
  | some r ↦ (
    ok (some (transitioned to now r)),
    record db {
      invoices = update (in_state business_id id from) (transitioned to now) db.invoices;
    },
  )
]
