-- ===== src/Tests/Reconciling.antt =====
-- The reconciler at concrete inputs.
use invoice_payment_service.Prelude.{◌≤◌, ◌≡◌, refl, true, false, some, List, [], ◌∷◌, arith, ◌==◌}
use invoice_payment_service.Domain.{Uuid}
use invoice_payment_service.Domain.Invoice.{open_}
use invoice_payment_service.Domain.Payment.{pending}
use invoice_payment_service.Table.{find, exists, count, where_, order_by}
use invoice_payment_service.WebhookEvents.{event_is}
use invoice_payment_service.PaymentService.Types.{World}
use invoice_payment_service.PaymentService.Statements.{attempt_is, pending_is}
use invoice_payment_service.Reconciler.{TickIds, tick, due_ids, is_in}
use invoice_payment_service.Reconciler.Settling.{tick_settles}
use invoice_payment_service.PspClient.{ChargeOutcome, Seen}
use invoice_payment_service.Tests.{crates, invoice_in, attempt_with, db_with, world_of, accepting}

abbrev tick_ids : TickIds
tick_ids = record { event_id = λ a. a; now = 200; finalize_now = 201 }

abbrev pending_world : World
pending_world = world_of (db_with (invoice_in open_ ∷ []) (attempt_with pending ∷ []) [])

pending_found : find (attempt_is 20) pending_world.db.attempts ≡ some (attempt_with pending)
unfolding find
pending_found = refl

pending_only : count (attempt_is 20) pending_world.db.attempts ≤ 1
unfolding count
pending_only = omega arith

pending_due : is_in (due_ids 200 pending_world.db) 20 ≡ true
unfolding due_ids is_in order_by where_
pending_due = refl

no_event_yet : exists (event_is 20) pending_world.db.events ≡ false
unfolding exists
no_event_yet = refl

own_events : (u : Uuid) → (u == 20) ≡ false → (tick_ids.event_id u == tick_ids.event_id 20) ≡ false
own_events u h = h

tick_settles_example :
    count (pending_is 20) (tick crates accepting tick_ids pending_world).db.attempts ≡ 0
tick_settles_example =
    tick_settles crates accepting tick_ids pending_world 20 (attempt_with pending) pending_found
      pending_only pending_due refl no_event_yet own_events

abbrev recorded : List Seen
recorded = record { key = "key-1"; outcome = ChargeOutcome.succeeded "psp-1" } ∷ []
