-- ===== src/Tests/Interleavings.antt =====
-- Interleaved payments at concrete inputs.
use invoice_payment_service.Prelude.{◌≡◌, refl, true, some, [], ◌∷◌}
use invoice_payment_service.Domain.Invoice.{open_, void}
use invoice_payment_service.Domain.Payment.{PaymentStatus}
use invoice_payment_service.Table.{find, exists}
use invoice_payment_service.Db.{Db}
use invoice_payment_service.InvoiceRepo.{invoice_of, transition}
use invoice_payment_service.PaymentService.Pay.{Others, pay}
use invoice_payment_service.PaymentService.Interleaving.{
  Reach, here, step, transition_step, succeeded_for,
}
use invoice_payment_service.PaymentService.PaidOnce.{paid_invoice_is_not_charged}
use invoice_payment_service.Tests.{
  crates, invoice_in, attempt_with, db_with, world_of, ids_from, accepting, request,
}

-- Another request voids the invoice before the claim.
abbrev voider : Others
voider = record {
  before_claim = λ db. (transition 1 10 open_ void 99 db).1;
  during_charge = λ db. db;
}

voider_before : (db : Db) → Reach db (voider.before_claim db)
voider_before db = step (transition_step 1 10 open_ void 99 db) here

voider_during : (db : Db) → Reach db (voider.during_charge db)
voider_during db = here

-- An invoice that an attempt has paid for.
abbrev paid_db : Db
paid_db = db_with (invoice_in open_ ∷ []) (attempt_with PaymentStatus.succeeded ∷ []) []

paid_by_attempt : exists (succeeded_for 10) paid_db.attempts ≡ true
unfolding exists
paid_by_attempt = refl

paid_invoice_found : find (invoice_of 1 10) paid_db.invoices ≡ some (invoice_in open_)
unfolding find
paid_invoice_found = refl

paid_invoice_is_not_charged_example :
    (pay crates accepting (ids_from 40) voider 1 10 "key-2" request (world_of paid_db)).1.charges
    ≡ []
paid_invoice_is_not_charged_example =
    paid_invoice_is_not_charged crates accepting (ids_from 40) voider voider_before voider_during 1
      10 "key-2" request (world_of paid_db) (invoice_in open_) paid_invoice_found paid_by_attempt
