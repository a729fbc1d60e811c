-- ===== src/Tests/Answering.antt =====
-- A payment that the provider does not answer in time, the reconciler's round for its attempt, and the
-- same request again.
use invoice_payment_service.Prelude.{◌+◌, ◌≡◌, refl, false, some, Text.is_empty, Text.trim}
use invoice_payment_service.Prelude.Int.{pos}
use invoice_payment_service.Errors.{ok}
use invoice_payment_service.Domain.Payment.{PaymentAttempt, unknown}
use invoice_payment_service.Table.{find, exists, update, insert, order_by, where_}
use invoice_payment_service.WebhookEvents.{event_is}
use invoice_payment_service.PaymentService.Types.{
  Psp, World, Claim, unknown_response, declined_response,
}
use invoice_payment_service.PaymentService.Statements.{
  attempt_is, new_attempt, unknown_attempt, insert_key, insert_attempt, link_attempt, mark_unknown,
}
use invoice_payment_service.PaymentService.Finalize.{finalize}
use invoice_payment_service.PaymentService.Pay.{nobody, pay}
use invoice_payment_service.Domain.Invoice.{state_eq}
use invoice_payment_service.Reconciler.{TickIds, is_in, lease, leased, reconcile_row}
use invoice_payment_service.System.{Txns, here, later, polls}
use invoice_payment_service.System.Payments.{Interleaved}
use invoice_payment_service.System.Answers.{settled_then_answered}
use invoice_payment_service.Tests.{
  crates, fresh_db, world_of, ids_from, accepting, declining, request,
}

abbrev silent : Psp
silent token amount key = unknown "timeout"

abbrev claim_here : Claim
claim_here = record {
  business_id = 1;
  invoice_id = 10;
  attempt_id = 41;
  key = "key-1";
  amount_cents = pos 4200;
}

abbrev unsettled : World
unsettled = (pay crates silent (ids_from 40) nobody 1 10 "key-1" request (world_of fresh_db)).1

accepted :
    pay crates silent (ids_from 40) nobody 1 10 "key-1" request (world_of fresh_db)
    ≡ (ok (202, unknown_response crates claim_here), unsettled)
unfolding pay is_empty trim find insert_key exists state_eq insert_attempt finalize mark_unknown
    link_attempt
accepted = refl

abbrev held : World
held = record unsettled { db = (lease 99000000 unsettled.db).1 }

polled : Txns unsettled.db held.db
polled = later here (polls 99000000 unsettled.db)

abbrev waiting : PaymentAttempt
waiting =
    leased 99000000
      (unknown_attempt "timeout" 101 (new_attempt 41 10 1 "key-1" (pos 4200) "tok_success" 100))

waiting_there : find (attempt_is 41) held.db.attempts ≡ some waiting
unfolding pay is_empty trim find insert_key exists state_eq insert_attempt finalize mark_unknown
    link_attempt lease update insert is_in order_by where_
waiting_there = refl

abbrev ticking : TickIds
ticking = record { event_id = λ a. a + 1000; now = 99000000; finalize_now = 99000001 }

event_is_new : exists (event_is 1041) held.db.events ≡ false
unfolding pay is_empty trim find insert_key exists state_eq insert_attempt finalize mark_unknown
    link_attempt lease
event_is_new = refl

alone : Interleaved nobody
alone = record { before = λ db. here; during = λ db. here }

settled_then_answered_example :
    pay crates accepting
      (ids_from 60)
      nobody
      1
      10
      "key-1"
      request
      (reconcile_row crates declining ticking waiting held)
    ≡ (
      ok (402, declined_response claim_here "card_declined"),
      reconcile_row crates declining ticking waiting held,
    )
settled_then_answered_example =
    settled_then_answered crates silent declining accepting (ids_from 40) (ids_from 60) nobody
      ticking 10 request waiting (world_of fresh_db) unsettled held alone accepted polled
      waiting_there event_is_new refl
