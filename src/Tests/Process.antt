-- ===== src/Tests/Process.antt =====
-- The theorems on the whole process at the events of Tests/Story.antt.
use mathlib.Core.Path.{subst}
use invoice_payment_service.Prelude.{
  ◌≡◌, refl, String, some, true, false, List, [], ◌∷◌, arith, ◌==◌, Text.is_empty, Text.trim,
  Text.as_bytes,
}
use invoice_payment_service.Errors.{ok, err}
use invoice_payment_service.Domain.Invoice.{Invoice, open_, void, is_terminal, can_transition_to}
use invoice_payment_service.Domain.Payment.{IdempotencyKey, PayRequest}
use invoice_payment_service.Table.{find, exists, count}
use invoice_payment_service.Table.Every.{Every}
use invoice_payment_service.Db.{Db}
use invoice_payment_service.InvoiceRepo.{invoice_of, invoice_is, sum_items, transition as move_row}
use invoice_payment_service.PaymentService.Types.{Crates, Psp, Charge, World}
use invoice_payment_service.PaymentService.Statements.{attempt_is, key_of}
use invoice_payment_service.PaymentService.Pay.{PayIds, Others, nobody, not_payable, pay}
use invoice_payment_service.Reconciler.{lease}
use invoice_payment_service.Auth.{require_api_key}
use invoice_payment_service.Routes.Handlers.{Outside}
use invoice_payment_service.Routes.App.{invoices, post_pay, post_void, v1, serve}
use invoice_payment_service.System.{Txns, here, later, polls, moves}
use invoice_payment_service.System.Attempts.{AttemptIdsDiffer}
use invoice_payment_service.System.Evolving.{EvolvesIn, Txns-EvolvesIn}
use invoice_payment_service.System.Payments.{Interleaved}
use invoice_payment_service.System.Requests.{serve-Txns}
use invoice_payment_service.System.Invariant.{Inv, Txns-Inv, bare_db-Inv}
use invoice_payment_service.System.Safety.{
  attempts_charge_sums, succeeded_then_refused, reachable-SameForOthers,
}
use invoice_payment_service.Tenants.{SameForOthers}
use invoice_payment_service.Service.{run}
use invoice_payment_service.Service.Runs.{IsInterleaved, run-Txns}
use invoice_payment_service.Tests.{crates, customer, request, invoice_in, fresh_db}
use invoice_payment_service.Tests.Basics.{key}
use invoice_payment_service.Tests.Api
use invoice_payment_service.Tests.Story.{start, started, state, story, opening, told, endpoint}
use invoice_payment_service.Tests.Settled.{settled_attempt, settled_db, told_settled}

alone : Interleaved nobody
alone = record { before = λ db. here; during = λ db. here }

no_attempts : AttemptIdsDiffer start.attempts
unfolding count
no_attempts id = omega arith

in_turn : Every IsInterleaved story
in_turn =
    let quiet : IsInterleaved opening = (alone, λ db. here) in
    (quiet, (quiet, (quiet, (tt, (tt, (tt, (quiet, tt)))))))

run-Txns_example : Txns start (run crates state story started).world.db
run-Txns_example = run-Txns crates state story started in_turn no_attempts

start-Inv : Inv start
start-Inv = bare_db-Inv (key ∷ []) (customer ∷ []) (endpoint ∷ [])

told-Inv : Inv (run crates state story started).world.db
told-Inv = Txns-Inv run-Txns_example start-Inv

settled-Inv : Inv settled_db
unfolding told
settled-Inv = subst Inv told_settled told-Inv

Txns-Inv_example : Inv (run crates state story started).world.db
Txns-Inv_example = Txns-Inv run-Txns_example start-Inv

attempts_charge_sums_example :
    Every
      (λ a. sum_items a.invoice_id (run crates state story started).world.db ≡ a.amount_cents.cents)
      (run crates state story started).world.db.attempts
attempts_charge_sums_example = attempts_charge_sums run-Txns_example start-Inv

attempt_there : find (attempt_is 301) settled_db.attempts ≡ some settled_attempt
unfolding find
attempt_there = refl

abbrev Refuses : Db → Type 0
Refuses db =
    (inv : Invoice) × (find (invoice_of 1 60) db.invoices ≡ some inv)
    × (is_terminal inv.state ≡ true)
    × ((c : Crates) (psp : Psp) (ids : PayIds) (key : String) (req : PayRequest)
          (charges : List Charge)
        → is_empty (trim req.card_token) ≡ false
        → exists (key_of 1 key) db.idempotency_keys ≡ false
        → exists (λ (k : IdempotencyKey). k.id == ids.key_id) db.idempotency_keys ≡ false
        → pay c psp ids nobody 1 60 key req (record { db = db; charges = charges })
          ≡ (err (not_payable inv.state), record { db = db; charges = charges }))

succeeded_then_refused_example : Refuses (lease 99000000 settled_db).1
succeeded_then_refused_example =
    succeeded_then_refused (later here (polls 99000000 settled_db)) settled-Inv settled_attempt
      attempt_there refl

-- A poll of the reconciler while the provider is called.
abbrev polled : Others
polled = record { before_claim = λ db. db; during_charge = λ db. (lease 150 db).1 }

polled_runs : Interleaved polled
polled_runs = record { before = λ db. here; during = λ db. later here (polls 150 db) }

abbrev busy : Outside
busy = record Api.outside { others = polled }

serve-Txns_example :
    Txns settled_db
      (serve busy
        (v1 (some "Bearer dpk_test_abcdefgh1234") (invoices (post_pay 60 (some "key-2") request)))
        (record { db = settled_db; charges = [] })).1.db
serve-Txns_example =
    serve-Txns busy
      (v1 (some "Bearer dpk_test_abcdefgh1234") (invoices (post_pay 60 (some "key-2") request)))
      (record { db = settled_db; charges = [] }) polled_runs (λ db. here)

voided : Txns fresh_db (move_row 1 10 open_ void 99 fresh_db).1
unfolding can_transition_to
voided = later here (moves 1 10 open_ void 99 fresh_db refl)

open_there : find (invoice_of 1 10) fresh_db.invoices ≡ some (invoice_in open_)
unfolding find
open_there = refl

Txns-EvolvesIn_example : EvolvesIn 1 10 (invoice_in open_) (move_row 1 10 open_ void 99 fresh_db).1
Txns-EvolvesIn_example = Txns-EvolvesIn voided 1 10 (invoice_in open_) open_there

abbrev settled : World
settled = record { db = settled_db; charges = [] }

abbrev next : Outside
next = record Api.outside { new_invoice = record Api.new_invoice { invoice_id = 61 } }

let_in :
    require_api_key next.crates.sha256 next.now (some "Bearer dpk_test_abcdefgh1234") settled.db
    ≡ ok 1
unfolding require_api_key find as_bytes
let_in = refl

id_free : exists (invoice_is 61) settled.db.invoices ≡ false
unfolding exists
id_free = refl

reachable-SameForOthers_example :
    SameForOthers 1 settled_db
      (serve next (v1 (some "Bearer dpk_test_abcdefgh1234") (invoices (post_void 60))) settled).1.db
reachable-SameForOthers_example =
    reachable-SameForOthers {db = settled_db} next 1 (some "Bearer dpk_test_abcdefgh1234")
      (invoices (post_void 60)) settled here settled-Inv let_in (refl, refl) id_free
