-- ===== src/InvoiceService/Transition.antt =====
-- The admin transitions (`transition` of crates/invoice-service/src/services/invoice_service.rs).
use invoice_payment_service.Prelude.{
  ◌≡◌, inl, inr, true, false, Option, none, some, arith, if◌then◌else◌, Option-cases,
}
use invoice_payment_service.Errors.{AppError, not_found, invalid_state_transition, Result, ok, err}
use invoice_payment_service.Domain.{Uuid, Time}
use invoice_payment_service.Domain.Invoice.{
  InvoiceState, as_str, state_eq, can_transition_to, Invoice, InvoiceResponse, from_parts,
}
use invoice_payment_service.Table.{find, update, where_, order_by}
use invoice_payment_service.Db.{Db}
use invoice_payment_service.InvoiceRepo.{
  invoice_of, in_state, transitioned, item_of, item_before, list_line_items, get as get_row,
  transition as move_row,
}
use invoice_payment_service.InvoiceService.{transition}

-- `transition` with its steps in one: the read, the guards, and the UPDATE on what the others leave.
abbrev pub moved :
    Db
    → Uuid
    → Uuid
    → InvoiceState
    → InvoiceState
    → Time
    → Option Invoice
    → Result InvoiceResponse AppError × Db
moved db business_id id from to now none =
    (err (invalid_state_transition (as_str from) (as_str to)), db)
moved db business_id id from to now (some r) = (
  ok (
      from_parts (transitioned to now r)
        (order_by item_before (where_ (item_of id) db.line_items))),
  record db { invoices = update (in_state business_id id from) (transitioned to now) db.invoices },
)

abbrev pub transition_steps :
    (race : Db → Db)
    → Uuid
    → Uuid
    → InvoiceState
    → Time
    → Option Invoice
    → Db
    → Result InvoiceResponse AppError × Db
transition_steps race business_id id to now none db = (err (not_found "invoice not found"), db)
transition_steps race business_id id to now (some current) db =
    if can_transition_to current.state to
    then moved (race db) business_id id current.state to now
        (find (in_state business_id id current.state) (race db).invoices)
    else (err (invalid_state_transition (as_str current.state) (as_str to)), db)

-- The first guard of the code refuses nothing that the second does not.
same_state_illegal : (s t : InvoiceState) → state_eq s t ≡ true → can_transition_to s t ≡ false
unfolding state_eq can_transition_to
same_state_illegal s t h = ground arith

pub transition_lem :
    (race : Db → Db) (business_id id : Uuid) (to : InvoiceState) (now : Time) (db : Db)
    → transition race business_id id to now db
      ≡ transition_steps race business_id id to now
          (find (invoice_of business_id id) db.invoices)
          db
unfolding transition get_row move_row list_line_items
transition_lem race business_id id to now db =
    elim (Option-cases (find (invoice_of business_id id) db.invoices)) [
      | inl missing ↦ rw missing
      | inr (current, found) ↦ rw found (ground (arith, same_state_illegal current.state to))
    ]
