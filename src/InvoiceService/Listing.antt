-- ===== src/InvoiceService/Listing.antt =====
-- The list of invoices (`list` of crates/invoice-service/src/services/invoice_service.rs and of
-- crates/invoice-service/src/repositories/invoice_repo.rs). The SQL text that the code puts together
-- is the query with its optional conditions.
use invoice_payment_service.Prelude.{String, Bool, true, Option, none, some, [], map, ◌&&◌, ◌==◌}
use invoice_payment_service.Prelude.Int.{ℤ}
use invoice_payment_service.Domain.{Uuid}
use invoice_payment_service.Domain.Invoice.{
  InvoiceState, state_eq, Invoice, InvoiceResponse, from_parts,
}
use invoice_payment_service.Db.{Db}
use invoice_payment_service.Pagination.{CursorCodec, Page, list_page}

-- ` AND state = $2`, if there is a state to filter by.
abbrev state_matches : Option InvoiceState → Invoice → Bool
state_matches none r = true
state_matches (some s) r = state_eq r.state s

abbrev listed : Uuid → Option InvoiceState → Invoice → Bool
listed business_id state r = r.business_id == business_id && state_matches state r

abbrev without_items : Invoice → InvoiceResponse
without_items inv = from_parts inv []

-- `list`
unfoldable pub list :
    CursorCodec → Uuid → Option InvoiceState → Option ℤ → Option String → Db → Page InvoiceResponse
list codec business_id state limit cursor db =
    let p =
      list_page (λ (r : Invoice). r.created_at) (λ (r : Invoice). r.id) codec
        (listed business_id state) limit cursor db.invoices in
    record { data_ = map without_items p.data_; next_cursor = p.next_cursor }
