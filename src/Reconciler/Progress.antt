-- ===== src/Reconciler/Progress.antt =====
-- The reconciler and the request path as sequences of the transactions of PaymentService.Interleaving.
use invoice_payment_service.Prelude.{sym, List, [], ◌∷◌}
use mathlib.Core.Path.{subst}
use invoice_payment_service.PaymentService.Finalize.{finalize_for_reconciler_lem}
use invoice_payment_service.Domain.Payment.{PaymentAttempt}
use invoice_payment_service.PaymentService.Types.{Crates, Psp, World}
use invoice_payment_service.Db.{Db}
use invoice_payment_service.PaymentService.Interleaving.{
  Step, Reach, here, step, lease_step, finalize_step,
}
use invoice_payment_service.Reconciler.{
  TickIds, Wake, cancelled, elapsed, run, tick, reconcile_rows, reconcile_row, row_claim,
  leased_rows,
}

reconcile_rows-Reach :
    (c : Crates) (psp : Psp) (ids : TickIds) (rows : List PaymentAttempt) (w : World)
    → Reach w.db (reconcile_rows c psp ids rows w).db
unfolding reconcile_rows
reconcile_rows-Reach c psp ids [] w = here
reconcile_rows-Reach c psp ids (a ∷ rows) w =
    let result = psp a.card_token a.amount_cents.cents a.idempotency_key in
    step
      (subst (λ db. Step w.db db)
        (sym (
          finalize_for_reconciler_lem c (ids.event_id a.id) ids.finalize_now (row_claim a) result
            w.db))
        (finalize_step c (ids.event_id a.id) ids.finalize_now (row_claim a) result w.db))
      (reconcile_rows-Reach c psp ids rows (reconcile_row c psp ids a w))

-- A tick of the reconciler is a lease and then second transactions of the payment flow, one for each
-- attempt leased, and nothing else.
tick-Reach : (c : Crates) (psp : Psp) (ids : TickIds) (w : World) → Reach w.db (tick c psp ids w).db
unfolding tick
tick-Reach c psp ids w =
    step (lease_step ids.now w.db) (reconcile_rows-Reach c psp ids (leased_rows ids.now w.db) _)

Reach-trans : {db1 db2 db3 : Db} → Reach db1 db2 → Reach db2 db3 → Reach db1 db3
Reach-trans here r = r
Reach-trans (step s q) r = step s (Reach-trans q r)

-- Whatever wakes the loop of the reconciler, and however the provider answers in each tick, a run of it
-- is a sequence of leases and second transactions of the payment flow, and nothing else.
run-Reach : (c : Crates) (wakes : List Wake) (w : World) → Reach w.db (run c wakes w).db
unfolding run
run-Reach c [] w = here
run-Reach c (cancelled ∷ wakes) w = here
run-Reach c (elapsed psp ids ∷ wakes) w =
    Reach-trans (tick-Reach c psp ids w) (run-Reach c wakes (tick c psp ids w))
