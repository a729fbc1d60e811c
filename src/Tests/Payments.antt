-- ===== src/Tests/Payments.antt =====
-- Payments at concrete inputs.
use invoice_payment_service.Prelude.{◌≡◌, refl, [], ◌∷◌, arith, Text.is_empty, Text.trim}
use invoice_payment_service.Prelude.Int.{pos}
use invoice_payment_service.Errors.{ok}
use invoice_payment_service.Domain.Invoice.{open_, void, state_eq}
use invoice_payment_service.Domain.Payment.{pending}
use invoice_payment_service.Table.{find, exists}
use invoice_payment_service.WebhookEvents.{emit_event}
use invoice_payment_service.Db.{Db}
use invoice_payment_service.PaymentService.Types.{World, Claim, succeeded_response}
use invoice_payment_service.PaymentService.Statements.{
  mark_succeeded, mark_paid, insert_key, insert_attempt, link_attempt,
}
use invoice_payment_service.PaymentService.Finalize.{finalize}
use invoice_payment_service.PaymentService.Pay.{nobody, pay}
use invoice_payment_service.PaymentService.Idempotency.{pay_idempotent}
use invoice_payment_service.PaymentService.Guards.{pay_charges_once, ChargedOnce}
use invoice_payment_service.Tests.{
  crates, invoice_in, attempt_with, key_row, db_with, fresh_db, world_of, ids_from, accepting,
  declining, request,
}

abbrev claim_here : Claim
claim_here = record {
  business_id = 1;
  invoice_id = 10;
  attempt_id = 41;
  key = "key-1";
  amount_cents = pos 4200;
}

abbrev paid_world : World
paid_world = (pay crates accepting (ids_from 40) nobody 1 10 "key-1" request (world_of fresh_db)).1

paid_now :
    pay crates accepting (ids_from 40) nobody 1 10 "key-1" request (world_of fresh_db)
    ≡ (ok (200, succeeded_response claim_here "psp-1"), paid_world)
unfolding pay is_empty trim find insert_key exists state_eq insert_attempt finalize emit_event
    mark_paid mark_succeeded link_attempt
paid_now = refl

pay_idempotent_example :
    pay crates declining (ids_from 50) nobody 1 10 "key-1" request paid_world
    ≡ (ok (200, succeeded_response claim_here "psp-1"), paid_world)
pay_idempotent_example =
    pay_idempotent crates accepting declining (ids_from 40) (ids_from 50) 1 10 "key-1" request
      (world_of fresh_db) paid_world 200 (succeeded_response claim_here "psp-1") paid_now
      (omega arith)

pay_charges_once_example :
    ChargedOnce crates accepting (ids_from 40) nobody 1 10 "key-1" request (world_of fresh_db)
pay_charges_once_example =
    pay_charges_once crates accepting (ids_from 40) nobody 1 10 "key-1" request (world_of fresh_db)

-- The request comes back with its key while the first one is in progress.
abbrev busy_world : World
busy_world = world_of (db_with (invoice_in open_ ∷ []) (attempt_with pending ∷ []) (key_row ∷ []))

-- The invoice is voided while the provider is called.
abbrev voided_db : Db
voided_db = db_with (invoice_in void ∷ []) (attempt_with pending ∷ []) (key_row ∷ [])
