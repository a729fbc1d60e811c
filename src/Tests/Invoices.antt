-- ===== src/Tests/Invoices.antt =====
-- Invoices and customers at concrete inputs.
use invoice_payment_service.Prelude.{
  ℕ, ◌+◌, ◌≤◌, ◌≡◌, refl, ◌∙◌, sym, ◌⊎◌, String, str_eq, Bool, true, false, none, some, [], ◌∷◌,
  arith,
}
use invoice_payment_service.Prelude.Int.{pos}
use invoice_payment_service.Domain.Invoice.{
  draft, open_, void, is_terminal, can_transition_to, CreateInvoiceRequest,
}
use invoice_payment_service.Domain.Customer.{CreateCustomerRequest}
use invoice_payment_service.Table.{find, where_, sum_by, count}
use invoice_payment_service.InvoiceRepo.{invoice_of, sum_items}
use invoice_payment_service.InvoiceService.{NewInvoice, create, transition}
use invoice_payment_service.InvoiceService.Lifecycle.{Run, here, step, lifecycle}
use invoice_payment_service.InvoiceService.Moves.{transition-eq-spec, transition_spec}
use invoice_payment_service.InvoiceService.Creation.{create-IsCreated}
use invoice_payment_service.InvoiceService.Created.{IsCreated}
use invoice_payment_service.CustomerService
use invoice_payment_service.CustomerService.{email_taken}
use invoice_payment_service.CustomerService.Create.{EmailsDiffer, create-EmailsDiffer}
use invoice_payment_service.Tests.{fresh_db}
use text.Mathlib.TextEquality.{eq_iff}

draft_to_void : Run 2 draft void
unfolding can_transition_to
draft_to_void = step {t = open_} refl (step refl here)

lifecycle_example : (2 ≤ 2) × ((◌≡◌ {A = ℕ} 2 0) ⊎ (is_terminal draft ≡ false))
lifecycle_example = lifecycle draft_to_void

transition-eq-spec_example :
    transition (λ db. db) 1 10 void 99 fresh_db
    ≡ transition_spec (λ db. db) 1 10 void 99 (find (invoice_of 1 10) fresh_db.invoices) fresh_db
transition-eq-spec_example = transition-eq-spec (λ db. db) 1 10 void 99 fresh_db

abbrev new_ids : NewInvoice
new_ids = record { invoice_id = 60; item_id = λ i. 61 + i; event_id = 70; now = 99 }

abbrev two_items : CreateInvoiceRequest
two_items = record {
  customer_id = 5;
  line_items =
      record { description = "Consulting"; quantity = pos 2; unit_amount_cents = pos 1500 }
      ∷ record { description = "Hosting"; quantity = pos 1; unit_amount_cents = pos 1200 }
      ∷ [];
}

no_items_yet : sum_items 60 fresh_db ≡ pos 0
unfolding sum_items where_ sum_by
no_items_yet = refl

create-IsCreated_example :
    IsCreated new_ids 1 two_items fresh_db (create new_ids 1 two_items fresh_db)
create-IsCreated_example = create-IsCreated new_ids 1 two_items fresh_db no_items_yet

abbrev email_eq : String → String → Bool
email_eq a b = str_eq a b

email_eq-sym : (a b : String) → email_eq a b ≡ true → email_eq b a ≡ true
email_eq-sym a b h = (eq_iff b a).1 (sym ((eq_iff a b).0 h))

email_eq-trans : (a b c : String) → email_eq a b ≡ true → email_eq b c ≡ true → email_eq a c ≡ true
email_eq-trans a b c h k = (eq_iff a c).1 ((eq_iff a b).0 h ∙ (eq_iff b c).0 k)

fresh-EmailsDiffer : EmailsDiffer email_eq email_eq-sym email_eq-trans fresh_db
unfolding count
fresh-EmailsDiffer business_id email = ground arith

abbrev grace : CreateCustomerRequest
grace = record { email = some "grace@example.com"; name = none }

create-EmailsDiffer_example :
    count
      (email_taken email_eq 1 (some "grace@example.com"))
      (CustomerService.create email_eq 6 99 1 grace fresh_db).1.customers
    ≤ 1
create-EmailsDiffer_example =
    create-EmailsDiffer email_eq email_eq-sym email_eq-trans 6 99 1 grace fresh_db
      fresh-EmailsDiffer 1 (some "grace@example.com")
