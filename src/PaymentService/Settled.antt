-- ===== src/PaymentService/Settled.antt =====
-- What a definite outcome of the provider leaves in the database.
use invoice_payment_service.Prelude.{String, ◌≡◌, false, none, some, arith}
use invoice_payment_service.Errors.{ok}
use invoice_payment_service.Domain.{Uuid, Time}
use invoice_payment_service.Domain.Invoice.{Invoice}
use invoice_payment_service.Domain.Payment.{PaymentStatus, failed, PspResult, declined}
use invoice_payment_service.Domain.Webhook.{payment, invoice_paid, invoice_payment_failed}
use invoice_payment_service.Table.{exists}
use invoice_payment_service.Db.{Db}
use invoice_payment_service.Outcomes.{emit_event_new}
use invoice_payment_service.WebhookEvents.{event_is}
use invoice_payment_service.PaymentService.Types.{
  Crates, Claim, succeeded_response, declined_response,
}
use invoice_payment_service.PaymentService.Statements.{mark_succeeded, mark_failed, mark_paid}
use invoice_payment_service.PaymentService.Finalize.{finalize}
use invoice_payment_service.PaymentService.Outcomes.{succeeded_db, declined_db}

module _ (c : Crates) (event_id : Uuid) (now : Time) (q : Claim) (db : Db)
    (new_event_id : exists (event_is event_id) db.events ≡ false) where
  new_after_success :
      (psp_ref : String)
      → exists
          (event_is event_id)
          (mark_paid q.invoice_id now (mark_succeeded q.attempt_id psp_ref now db)).events
        ≡ false
  unfolding mark_paid mark_succeeded
  new_after_success psp_ref = new_event_id

  new_after_decline :
      (code : String)
      → exists (event_is event_id) (mark_failed q.attempt_id code now db).events ≡ false
  unfolding mark_failed
  new_after_decline code = new_event_id

  pub succeeded_lem :
      (psp_ref : String)
      → finalize c event_id now q (PspResult.succeeded psp_ref) db
        ≡ (ok (200, succeeded_response q psp_ref), succeeded_db event_id now q db psp_ref)
  unfolding finalize
  succeeded_lem psp_ref =
      let sent =
        emit_event_new event_id q.business_id invoice_paid q.invoice_id
          (payment q.invoice_id q.attempt_id PaymentStatus.succeeded q.amount_cents none) now
          (mark_paid q.invoice_id now (mark_succeeded q.attempt_id psp_ref now db))
          (new_after_success psp_ref) in
      ground arith

  pub declined_lem :
      (code : String)
      → finalize c event_id now q (declined code) db
        ≡ (ok (402, declined_response q code), declined_db event_id now q db code)
  unfolding finalize
  declined_lem code =
      let sent =
        emit_event_new event_id q.business_id invoice_payment_failed q.invoice_id
          (payment q.invoice_id q.attempt_id failed q.amount_cents (some code)) now
          (mark_failed q.attempt_id code now db) (new_after_decline code) in
      ground arith
