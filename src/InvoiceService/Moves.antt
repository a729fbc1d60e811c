-- ===== src/InvoiceService/Moves.antt =====
-- What the admin transitions promise (`transition` of
-- crates/invoice-service/src/services/invoice_service.rs), written out without the functions of the
-- code: the table of legal moves, the rows that a move is for, and the columns that it writes.
use invoice_payment_service.Prelude.{
  ◌+◌, ◌≡◌, refl, ◌∙◌, Bool, true, false, Option, none, some, map, ◌&&◌, ◌||◌, ltb, ◌==◌, arith,
  if◌then◌else◌,
}
use invoice_payment_service.Prelude.Int.{ltb_ℤ, leb_ℤ}
use invoice_payment_service.Errors.{AppError, not_found, invalid_state_transition, Result, ok, err}
use invoice_payment_service.Domain.{Uuid, Time}
use invoice_payment_service.Domain.Invoice.{
  InvoiceState, draft, open_, paid, void, uncollectible, as_str, state_eq, can_transition_to,
  Invoice, LineItem, LineItemResponse, InvoiceResponse, line_item_response, from_parts,
}
use invoice_payment_service.Table.{find, update, where_, order_by}
use invoice_payment_service.Db.{Db}
use invoice_payment_service.InvoiceService.{transition}
use invoice_payment_service.InvoiceService.Transition.{transition_lem, transition_steps, moved}

-- The moves of the state machine.
abbrev legal : InvoiceState → InvoiceState → Bool
legal draft open_ = true
legal draft void = true
legal open_ paid = true
legal open_ void = true
legal open_ uncollectible = true
legal _ _ = false

-- The row after a move: its state, one version more and the time, with the time of an opening or of a
-- voiding besides; every other column is as it was.
abbrev pub row_after : InvoiceState → Time → Invoice → Invoice
row_after open_ now r = record r {
  state = open_;
  version = r.version + 1;
  finalized_at = some now;
  updated_at = now;
}
row_after void now r = record r {
  state = void;
  version = r.version + 1;
  voided_at = some now;
  updated_at = now;
}
row_after to now r = record r { state = to; version = r.version + 1; updated_at = now }

-- The row of the business with the id, while it is in the state.
abbrev pub still : Uuid → Uuid → InvoiceState → Invoice → Bool
still business_id id from r = (r.id == id && r.business_id == business_id) && state_eq r.state from

-- The line items of an invoice as the answer shows them, by position and then by id.
abbrev pub shown : LineItem → LineItemResponse
shown li = record {
  description = li.description;
  quantity = li.quantity;
  unit_amount_cents = li.unit_amount_cents.cents;
  amount_cents = li.amount_cents.cents;
}

abbrev pub by_position : LineItem → LineItem → Bool
by_position a b =
    ltb_ℤ a.position b.position
    || (leb_ℤ a.position b.position && leb_ℤ b.position a.position && ltb a.id b.id)

abbrev pub answer : Uuid → Invoice → Db → InvoiceResponse
answer id r db = record {
  id = r.id;
  customer_id = r.customer_id;
  state = r.state;
  currency = r.currency;
  total_cents = r.total_cents.cents;
  line_items =
      map shown
        (order_by by_position (where_ (λ (li : LineItem). li.invoice_id == id) db.line_items));
  finalized_at = r.finalized_at;
  paid_at = r.paid_at;
  created_at = r.created_at;
}

-- The UPDATE, on the database that the others have left.
abbrev pub applied :
    Uuid
    → Uuid
    → InvoiceState
    → InvoiceState
    → Time
    → Option Invoice
    → Db
    → Result InvoiceResponse AppError × Db
applied business_id id from to now none db =
    (err (invalid_state_transition (as_str from) (as_str to)), db)
applied business_id id from to now (some r) db = (
  ok (answer id (row_after to now r) db),
  record db { invoices = update (still business_id id from) (row_after to now) db.invoices },
)

-- The whole of it, by the invoice that is found at the start.
abbrev pub transition_spec :
    (race : Db → Db)
    → Uuid
    → Uuid
    → InvoiceState
    → Time
    → Option Invoice
    → Db
    → Result InvoiceResponse AppError × Db
transition_spec race business_id id to now none db = (err (not_found "invoice not found"), db)
transition_spec race business_id id to now (some current) db =
    if legal current.state to
    then applied business_id id current.state to now
        (find (still business_id id current.state) (race db).invoices) (race db)
    else (err (invalid_state_transition (as_str current.state) (as_str to)), db)

can_transition_to-eq-legal : (s t : InvoiceState) → can_transition_to s t ≡ legal s t
unfolding can_transition_to
can_transition_to-eq-legal s t = ground arith

moved-eq-applied :
    (db : Db) (business_id id : Uuid) (from to : InvoiceState) (now : Time) (found : Option Invoice)
    → moved db business_id id from to now found ≡ applied business_id id from to now found db
unfolding from_parts line_item_response state_eq
moved-eq-applied db business_id id from to now none = refl
moved-eq-applied db business_id id from draft now (some r) = refl
moved-eq-applied db business_id id from open_ now (some r) = refl
moved-eq-applied db business_id id from paid now (some r) = refl
moved-eq-applied db business_id id from void now (some r) = refl
moved-eq-applied db business_id id from uncollectible now (some r) = refl

steps-eq-spec :
    (race : Db → Db) (business_id id : Uuid) (to : InvoiceState) (now : Time)
    (found : Option Invoice) (db : Db)
    → transition_steps race business_id id to now found db
      ≡ transition_spec race business_id id to now found db
steps-eq-spec race business_id id to now none db = refl
steps-eq-spec race business_id id to now (some current) db =
    rw
      (
        can_transition_to-eq-legal current.state to,
        moved-eq-applied (race db) business_id id current.state to now
            (find (still business_id id current.state) (race db).invoices),
      )
      refl

-- For every request and whatever other requests do between the read and the UPDATE, `transition`
-- answers 404 for an unknown invoice; it refuses with nothing written a move that is not in the table
-- of legal moves, or that another request has overtaken, so that the invoice is not in the state any
-- more that was read; and else it gives the rows of this invoice that are in that state the new state,
-- one version more, the time of the update, and that of the opening or the voiding, and leaves all else
-- as it is, and answers with the row and its line items by position.
pub transition-eq-spec :
    (race : Db → Db) (business_id id : Uuid) (to : InvoiceState) (now : Time) (db : Db)
    → transition race business_id id to now db
      ≡ transition_spec race business_id id to now
          (find (λ r. r.id == id && r.business_id == business_id) db.invoices)
          db
transition-eq-spec race business_id id to now db =
    transition_lem race business_id id to now db
    ∙ steps-eq-spec race business_id id to now
        (find (λ r. r.id == id && r.business_id == business_id) db.invoices) db
