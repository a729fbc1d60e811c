-- ===== src/System/Background.antt =====
-- The two background tasks (`spawn_background_tasks` of crates/invoice-service/src/lib.rs) as sequences
-- of transactions: the loop of the reconciler and that of the webhook dispatcher.
use mathlib.Core.Path.{subst}
use invoice_payment_service.Prelude.{◌≡◌, refl, sym, some, List, [], ◌∷◌}
use invoice_payment_service.Domain.{Uuid}
use invoice_payment_service.Domain.Payment.{PaymentAttempt}
use invoice_payment_service.Table.{find, update}
use invoice_payment_service.Table.Every.{Every, Every-mono, Every-where_, each_is_found}
use invoice_payment_service.Db.{Db}
use invoice_payment_service.PaymentService.Types.{Crates, Psp, World}
use invoice_payment_service.PaymentService.Statements.{attempt_is}
use invoice_payment_service.PaymentService.Finalize.{finalize_for_reconciler_lem}
use invoice_payment_service.Reconciler.{
  TickIds, Wake, cancelled, elapsed, run, tick, reconcile_rows, reconcile_row, row_claim,
  leased_rows, lease, picked, due_ids, leased, attempt_id,
}
use invoice_payment_service.Dispatcher
use invoice_payment_service.Dispatcher.{fan_out}
use invoice_payment_service.Dispatcher.Batch
use invoice_payment_service.Dispatcher.Batch.{
  Outside, Job, Sends, send_one, send_all, post_of, hydrate, deliver_claimed, deliver_batch,
}
use invoice_payment_service.System.{
  Txn, finalizes, polls, fans_out, leases, records, Txns, here, later, Knows,
}
use invoice_payment_service.System.Attempts.{
  AttemptIdsDiffer, Txn-AttemptWrite, write-AttemptIdsDiffer,
}
use invoice_payment_service.System.Payments.{Txns-trans}

pub Txns-AttemptIdsDiffer :
    {db db' : Db} → Txns db db' → AttemptIdsDiffer db.attempts → AttemptIdsDiffer db'.attempts
Txns-AttemptIdsDiffer here h = h
Txns-AttemptIdsDiffer (later {db2 = db2} {db3 = db3} r t) h =
    write-AttemptIdsDiffer db2.attempts db3.attempts (Txn-AttemptWrite t)
      (Txns-AttemptIdsDiffer r h)

module _ (c : Crates) (psp : Psp) (ids : TickIds) where
  rows-Txns :
      (rows : List PaymentAttempt) (leased_db : Db) (w : World)
      → Every (λ a. Knows (row_claim a) leased_db) rows
      → Txns leased_db w.db
      → Txns w.db (reconcile_rows c psp ids rows w).db
  unfolding reconcile_rows
  rows-Txns [] leased_db w known r = here
  rows-Txns (a ∷ rows) leased_db w (knows, known) r =
      let result = psp a.card_token a.amount_cents.cents a.idempotency_key in
      let one =
        subst (λ db. Txn w.db db)
          (sym (
            finalize_for_reconciler_lem c (ids.event_id a.id) ids.finalize_now (row_claim a) result
              w.db))
          (finalizes c (ids.event_id a.id) ids.finalize_now (row_claim a) result knows r) in
      Txns-trans (later here one)
        (rows-Txns rows leased_db (reconcile_row c psp ids a w) known (later r one))

  -- The rows that the lease returns are those that the table has under their ids.
  leased_rows-Knows :
      (now : _) (db : Db)
      → AttemptIdsDiffer (lease now db).1.attempts
      → Every (λ a. Knows (row_claim a) (lease now db).1) (leased_rows now db)
  unfolding lease
  leased_rows-Knows now db one =
      let t = update (picked (due_ids now db)) (leased now) db.attempts in
      Every-where_ _ (picked (due_ids now db)) t (
        Every-mono (λ a. find (attempt_is a.id) t ≡ some a) _ t (λ a found. (a, found, refl, refl))
          (each_is_found attempt_id t one))

  pub tick-Txns : (w : World) → AttemptIdsDiffer w.db.attempts → Txns w.db (tick c psp ids w).db
  unfolding tick
  tick-Txns w one =
      let polled = later here (polls ids.now w.db) in
      Txns-trans polled (
        rows-Txns (leased_rows ids.now w.db) _ (record w { db = (lease ids.now w.db).1 })
          (leased_rows-Knows ids.now w.db (Txns-AttemptIdsDiffer polled one)) here)

-- A run of the reconciler.
pub run-Txns :
    (c : Crates) (wakes : List Wake) (w : World)
    → AttemptIdsDiffer w.db.attempts
    → Txns w.db (run c wakes w).db
unfolding run
run-Txns c [] w one = here
run-Txns c (cancelled ∷ wakes) w one = here
run-Txns c (elapsed psp ids ∷ wakes) w one =
    let first = tick-Txns c psp ids w one in
    Txns-trans first (run-Txns c wakes (tick c psp ids w) (Txns-AttemptIdsDiffer first one))

module _ (o : Outside) where
  send_all-Txns : (js : List Job) (s : Sends) → Txns s.db (send_all o js s).db
  unfolding send_all send_one
  send_all-Txns [] s = here
  send_all-Txns (j ∷ js) s =
      Txns-trans
        (later here (
          records o.max_attempts (o.draw j.delivery_id) (o.sent_now j.delivery_id) j.delivery_id
            j.attempts (o.http (post_of o j)) s.db))
        (send_all-Txns js (send_one o j s))

  claimed-Txns : (ids : List Uuid) (s : Sends) → Txns s.db (deliver_claimed o ids s).db
  claimed-Txns [] s = here
  claimed-Txns (i ∷ ids) s = send_all-Txns (hydrate (i ∷ ids) s.db) s

  pub dispatch-Txns : (s : Sends) → Txns s.db (Batch.tick o s).db
  unfolding Batch.tick deliver_batch
  dispatch-Txns s =
      let s1 : Sends = record s { db = fan_out o.new_delivery_id o.fan_now s.db } in
      let s2 : Sends = record s1 { db = Dispatcher.lease o.now s1.db } in
      Txns-trans
        (later (later here (fans_out o.new_delivery_id o.fan_now s.db)) (leases o.now s1.db))
        (claimed-Txns (Dispatcher.due_ids o.now s1.db) s2)

-- A run of the dispatcher.
dispatcher_run-Txns : (wakes : List Batch.Wake) (s : Sends) → Txns s.db (Batch.run wakes s).db
unfolding Batch.run
dispatcher_run-Txns [] s = here
dispatcher_run-Txns (Batch.cancelled ∷ wakes) s = here
dispatcher_run-Txns (Batch.elapsed o ∷ wakes) s =
    Txns-trans (dispatch-Txns o s) (dispatcher_run-Txns wakes (Batch.tick o s))
