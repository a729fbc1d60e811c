-- ===== src/PaymentService/ActiveAttempt.antt =====
-- The single-active-charge guard: the partial unique index of payment attempts, under every
-- statement of the payment flow.
use invoice_payment_service.Prelude.{ℕ, ◌≤◌, String, ◌≡◌, none, some, List, arith}
use invoice_payment_service.Prelude.Int.{ℤ}
use invoice_payment_service.Domain.{Uuid, Time}
use invoice_payment_service.Domain.Invoice.{InvoiceState}
use native.Mathlib.Nat.{le_trans}
use invoice_payment_service.Domain.Payment.{
  PaymentStatus, failed, PaymentAttempt, PspResult, declined, unknown,
}
use invoice_payment_service.Domain.Webhook.{Payload, payment, invoice_paid, invoice_payment_failed}
use invoice_payment_service.Table.{count, insert}
use invoice_payment_service.Table.Laws.{count-insert, count-update-le, count_of_not_exists}
use invoice_payment_service.Db.{Db}
use invoice_payment_service.WebhookEvents.{emit_event}
use invoice_payment_service.PaymentService.Types.{Crates, Claim}
use invoice_payment_service.PaymentService.Statements.{
  new_key, new_attempt, succeeded_attempt, failed_attempt, unknown_attempt, active_for, pending_is,
  insert_key, insert_attempt, link_attempt, mark_succeeded, mark_failed, mark_unknown, mark_paid,
  complete_key,
}
use invoice_payment_service.PaymentService.Finalize.{finalize}
use invoice_payment_service.PaymentService.Pay.{PayIds, claim}

-- Every invoice has at most one attempt that is pending or has succeeded.
abbrev pub AtMostOneActive : Db → Type 0
AtMostOneActive db = (i : Uuid) → count (active_for i) db.attempts ≤ 1

insert_attempt-AtMostOneActive :
    (a : PaymentAttempt) (db : Db) → AtMostOneActive db → AtMostOneActive (insert_attempt a db).1
unfolding insert_attempt
insert_attempt-AtMostOneActive a db h i = ground (
  arith,
  h i,
  count-insert (active_for i) a db.attempts,
  count_of_not_exists (active_for a.invoice_id) db.attempts,
)

module _ (id : Uuid) (now : Time) (db : Db) (h : AtMostOneActive db) where
  mark_succeeded-AtMostOneActive :
      (psp_ref : String) → AtMostOneActive (mark_succeeded id psp_ref now db)
  unfolding mark_succeeded
  mark_succeeded-AtMostOneActive psp_ref i =
      le_trans
        (count-update-le (active_for i) (pending_is id) (succeeded_attempt psp_ref now) db.attempts
          (λ r. ground arith))
        (h i)

  mark_failed-AtMostOneActive : (code : String) → AtMostOneActive (mark_failed id code now db)
  unfolding mark_failed
  mark_failed-AtMostOneActive code i =
      le_trans
        (count-update-le (active_for i) (pending_is id) (failed_attempt code now) db.attempts
          (λ r. ground arith))
        (h i)

  mark_unknown-AtMostOneActive : (reason : String) → AtMostOneActive (mark_unknown id reason now db)
  unfolding mark_unknown
  mark_unknown-AtMostOneActive reason i =
      le_trans
        (count-update-le (active_for i) (pending_is id) (unknown_attempt reason now) db.attempts
          (λ r. ground arith))
        (h i)

-- The outbox and the other tables do not matter to the attempts.
attempts-emit_event :
    (id business_id : Uuid) (event_type : String) (aggregate_id : Uuid) (payload : Payload)
    (now : Time) (db : Db)
    → (emit_event id business_id event_type aggregate_id payload now db).1.attempts ≡ db.attempts
unfolding emit_event
attempts-emit_event id business_id event_type aggregate_id payload now db = ground arith

-- The second transaction keeps it, whatever the outcome of the provider, also if it is run for an
-- attempt that was finalized before.
pub finalize-AtMostOneActive :
    (c : Crates) (event_id : Uuid) (now : Time) (q : Claim) (result : PspResult) (db : Db)
    → AtMostOneActive db
    → AtMostOneActive (finalize c event_id now q result db).1
unfolding finalize mark_paid complete_key
finalize-AtMostOneActive c event_id now q (PspResult.succeeded psp_ref) db h i = ground (
  arith,
  h i,
  mark_succeeded-AtMostOneActive q.attempt_id now db h psp_ref i,
  attempts-emit_event event_id q.business_id invoice_paid q.invoice_id
      (payment q.invoice_id q.attempt_id PaymentStatus.succeeded q.amount_cents none) now
      (mark_paid q.invoice_id now (mark_succeeded q.attempt_id psp_ref now db)),
)
finalize-AtMostOneActive c event_id now q (declined code) db h i = ground (
  arith,
  h i,
  mark_failed-AtMostOneActive q.attempt_id now db h code i,
  attempts-emit_event event_id q.business_id invoice_payment_failed q.invoice_id
      (payment q.invoice_id q.attempt_id failed q.amount_cents (some code)) now
      (mark_failed q.attempt_id code now db),
)
finalize-AtMostOneActive c event_id now q (unknown reason) db h i =
    mark_unknown-AtMostOneActive q.attempt_id now db h reason i

-- The first transaction keeps it: the index refuses a second active attempt.
pub claim-AtMostOneActive :
    (ids : PayIds) (business_id invoice_id : Uuid) (key card_token : String) (fp : List ℕ)
    (state : InvoiceState) (amount : ℤ) (db : Db)
    → AtMostOneActive db
    → AtMostOneActive (claim ids business_id invoice_id key card_token fp state amount db).1
unfolding claim insert_key link_attempt
claim-AtMostOneActive ids business_id invoice_id key card_token fp state amount db h i =
    let k = new_key ids.key_id business_id key fp ids.now in
    let db1 : Db = record db { idempotency_keys = insert k db.idempotency_keys } in
    let a = new_attempt ids.attempt_id invoice_id business_id key amount card_token ids.now in
    ground (arith, h i, insert_attempt-AtMostOneActive a db1 h i)
