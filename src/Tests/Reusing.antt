-- ===== src/Tests/Reusing.antt =====
-- The key of a request that was accepted comes back with another card token.
use invoice_payment_service.Prelude.{◌≡◌, ◌≢◌, refl, false, some, inr, Text.is_empty, Text.trim}
use invoice_payment_service.Prelude.Int.{pos}
use invoice_payment_service.Errors.{ok, err, parts}
use invoice_payment_service.Domain.Invoice.{open_, state_eq}
use invoice_payment_service.Domain.Payment.{PayRequest, unknown}
use invoice_payment_service.Table.{find, exists}
use invoice_payment_service.InvoiceRepo.{invoice_of}
use invoice_payment_service.PaymentService.Types.{Psp, World, Claim, unknown_response}
use invoice_payment_service.PaymentService.Statements.{
  insert_key, insert_attempt, link_attempt, mark_unknown,
}
use invoice_payment_service.PaymentService.Fingerprint.{fingerprint}
use invoice_payment_service.PaymentService.Replay.{key_reuse}
use invoice_payment_service.PaymentService.Finalize.{finalize}
use invoice_payment_service.PaymentService.Pay.{nobody, pay}
use invoice_payment_service.Reconciler.{lease}
use invoice_payment_service.System.{Txns, here, later, polls}
use invoice_payment_service.System.Payments.{Interleaved}
use invoice_payment_service.System.Reuse.{reused_key_refused, print, input}
use invoice_payment_service.Tests.{invoice_in, fresh_db, world_of, ids_from, accepting, request}
use invoice_payment_service.Tests.Texts.{uuid_crates, sixteen_length, sixteen_apart, in_range}

abbrev silent : Psp
silent token amount key = unknown "timeout"

abbrev other_request : PayRequest
other_request = record { card_token = "tok_card_declined" }

abbrev claim_here : Claim
claim_here = record {
  business_id = 1;
  invoice_id = 10;
  attempt_id = 41;
  key = "key-1";
  amount_cents = pos 4200;
}

abbrev unsettled : World
unsettled = (pay uuid_crates silent (ids_from 40) nobody 1 10 "key-1" request (world_of fresh_db)).1

accepted :
    pay uuid_crates silent (ids_from 40) nobody 1 10 "key-1" request (world_of fresh_db)
    ≡ (ok (202, unknown_response uuid_crates claim_here), unsettled)
unfolding pay is_empty trim find insert_key exists state_eq insert_attempt finalize mark_unknown
    link_attempt
accepted = refl

abbrev polled : World
polled = record unsettled { db = (lease 99000000 unsettled.db).1 }

polled_runs : Txns unsettled.db polled.db
polled_runs = later here (polls 99000000 unsettled.db)

there : find (invoice_of 1 10) fresh_db.invoices ≡ some (invoice_in open_)
unfolding find
there = refl

still_there : find (invoice_of 1 10) polled.db.invoices ≡ some (invoice_in open_)
unfolding pay is_empty trim find insert_key exists state_eq insert_attempt finalize mark_unknown
    link_attempt lease
still_there = refl

alone : Interleaved nobody
alone = record { before = λ db. here; during = λ db. here }

not_blank : is_empty (trim other_request.card_token) ≡ false
unfolding is_empty trim
not_blank = refl

no_collision :
    print uuid_crates request (invoice_in open_)
      ≡ print uuid_crates other_request (invoice_in open_)
    → input uuid_crates request (invoice_in open_)
      ≡ input uuid_crates other_request (invoice_in open_)
unfolding fingerprint
no_collision e = e

tokens_differ : request.card_token ≢ other_request.card_token
tokens_differ e = cc

reused_key_refused_example :
    (pay uuid_crates accepting (ids_from 60) nobody 1 10 "key-1" other_request polled
      ≡ (err key_reuse, polled))
    × ((parts key_reuse).0 ≡ 409)
reused_key_refused_example =
    reused_key_refused uuid_crates silent accepting (ids_from 40) (ids_from 60) nobody 1 10 10
      "key-1" request other_request (world_of fresh_db) unsettled polled (invoice_in open_)
      (invoice_in open_) alone there accepted polled_runs not_blank still_there sixteen_length
      sixteen_apart in_range in_range no_collision (inr tokens_differ)
