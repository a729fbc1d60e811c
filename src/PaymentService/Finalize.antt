-- ===== src/PaymentService/Finalize.antt =====
-- The second transaction (`finalize`, `emit` and `finalize_for_reconciler` of
-- crates/invoice-service/src/services/payment_service.rs).
use invoice_payment_service.Prelude.{String, ◌≡◌, arith}
use invoice_payment_service.Domain.{Uuid, Time}
use invoice_payment_service.Domain.Payment.{PaymentAttemptResponse, PspResult, declined, unknown}
use invoice_payment_service.Domain.Webhook.{invoice_paid, invoice_payment_failed, payment}
use invoice_payment_service.Db.{Db, Action, pure, query, execute, transaction, ◌>>◌}
use invoice_payment_service.WebhookEvents.{emit_event}
use invoice_payment_service.PaymentService.Statements.{
  mark_succeeded, mark_failed, mark_unknown, mark_paid, complete_key,
}
use invoice_payment_service.PaymentService.Types.{
  Crates, PayOutcome, Claim, succeeded_response, declined_response, unknown_response,
}

-- `emit`
unfoldable emit : Uuid → Time → Claim → String → PaymentAttemptResponse → Action Uuid
emit event_id now q event_type resp = query (
    emit_event event_id q.business_id event_type q.invoice_id
      (payment q.invoice_id resp.attempt_id resp.status q.amount_cents resp.failure_code) now)

-- The body of the second transaction, by the outcome of the provider.
unfoldable finalize_tx : Crates → Uuid → Time → Claim → PspResult → Action PayOutcome
unfolding emit
finalize_tx c event_id now q (PspResult.succeeded psp_ref) = do
  execute (mark_succeeded q.attempt_id psp_ref now)
  execute (mark_paid q.invoice_id now)
  emit event_id now q invoice_paid (succeeded_response q psp_ref)
  execute (complete_key q.business_id q.key 200 (succeeded_response q psp_ref))
  pure (200, succeeded_response q psp_ref)
finalize_tx c event_id now q (declined code) = do
  execute (mark_failed q.attempt_id code now)
  emit event_id now q invoice_payment_failed (declined_response q code)
  execute (complete_key q.business_id q.key 402 (declined_response q code))
  pure (402, declined_response q code)
finalize_tx c event_id now q (unknown reason) = do
  execute (mark_unknown q.attempt_id reason now)
  pure (202, unknown_response c q)

-- `finalize`
unfoldable pub finalize : Crates → Uuid → Time → Claim → PspResult → Action PayOutcome
unfolding finalize_tx
finalize c event_id now q result = transaction (finalize_tx c event_id now q result)

-- `finalize_for_reconciler`: the response is dropped.
unfoldable pub finalize_for_reconciler : Crates → Uuid → Time → Claim → PspResult → Action Unit
finalize_for_reconciler c event_id now q result = do finalize c event_id now q result; pure tt

-- The second transaction of the reconciler is that of the request.
pub finalize_for_reconciler_lem :
    (c : Crates) (event_id : Uuid) (now : Time) (q : Claim) (result : PspResult) (db : Db)
    → (finalize_for_reconciler c event_id now q result db).1
      ≡ (finalize c event_id now q result db).1
unfolding finalize_for_reconciler
finalize_for_reconciler_lem c event_id now q result db = ground arith
