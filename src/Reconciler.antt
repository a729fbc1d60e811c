-- ===== src/Reconciler.antt =====
-- The payment reconciler (crates/invoice-service/src/reconciler.rs): one tick leases a batch of due
-- pending attempts and runs each through the provider and the request path's second transaction.
-- The loop around it is a list of what wakes it.
pub mod Progress
pub mod Settling
pub mod OneCharge
use invoice_payment_service.Prelude.{
  ℕ, ◌+◌, Bool, true, false, ◌&&◌, ◌||◌, Option, none, some, List, [], ◌∷◌, map, take, leb, ltb,
  ◌==◌,
}
use invoice_payment_service.Errors.{ok}
use invoice_payment_service.Domain.{Uuid, Time, seconds}
use invoice_payment_service.Domain.Payment.{PaymentAttempt}
use invoice_payment_service.Table.{where_, update, order_by}
use invoice_payment_service.Db.{Db, Statement}
use invoice_payment_service.PaymentService.Types.{Crates, Psp, Charge, World, Claim}
use invoice_payment_service.PaymentService.Statements.{is_pending}
use invoice_payment_service.PaymentService.Finalize.{finalize_for_reconciler}

-- `BATCH`
abbrev pub batch : ℕ
batch = 20

-- `status = 'pending' AND (next_poll_at IS NULL OR next_poll_at <= now())`
abbrev poll_reached : Time → Option Time → Bool
poll_reached now none = true
poll_reached now (some t) = leb t now

abbrev pub is_due : Time → PaymentAttempt → Bool
is_due now a = is_pending a.status && poll_reached now a.next_poll_at

-- `ORDER BY next_poll_at NULLS FIRST`
abbrev poll_before : Option Time → Option Time → Bool
poll_before none (some t) = true
poll_before (some s) (some t) = ltb s t
poll_before _ none = false

abbrev due_before : PaymentAttempt → PaymentAttempt → Bool
due_before a b = poll_before a.next_poll_at b.next_poll_at

-- `id IN (…)`
unfoldable pub is_in : List Uuid → Uuid → Bool
is_in [] id = false
is_in (x ∷ xs) id = x == id || is_in xs id

abbrev pub attempt_id : PaymentAttempt → Uuid
attempt_id a = a.id

-- The ids that the inner SELECT picks.
unfoldable pub due_ids : Time → Db → List Uuid
due_ids now db = map attempt_id (take batch (order_by due_before (where_ (is_due now) db.attempts)))

-- The row that the lease leaves.
abbrev pub leased : Time → PaymentAttempt → PaymentAttempt
leased now a = record a { next_poll_at = some (now + seconds 30); updated_at = now }

abbrev pub picked : List Uuid → PaymentAttempt → Bool
picked ids a = is_in ids a.id

-- The UPDATE … RETURNING of `tick`.
unfoldable pub lease : Time → Statement (List PaymentAttempt)
unfolding due_ids
lease now db =
    let ids = due_ids now db in
    let attempts = update (picked ids) (leased now) db.attempts in
    (ok (where_ (picked ids) attempts), record db { attempts = attempts })

-- What a leased row hands to the provider and to the second transaction.
abbrev pub row_claim : PaymentAttempt → Claim
row_claim a = record {
  business_id = a.business_id;
  invoice_id = a.invoice_id;
  attempt_id = a.id;
  key = a.idempotency_key;
  amount_cents = a.amount_cents.cents;
}

abbrev row_charge : PaymentAttempt → Charge
row_charge a = record {
  card_token = a.card_token;
  amount_cents = a.amount_cents.cents;
  idempotency_key = a.idempotency_key;
}

-- What `tick` takes from outside: an event id for each attempt, and `now()`.
pub record TickIds : Type 0 where
  pub event_id : Uuid → Uuid
  pub now : Time
  pub finalize_now : Time

-- One round of the loop over the rows. A failure to finalize is only logged.
unfoldable pub reconcile_row : Crates → Psp → TickIds → PaymentAttempt → World → World
reconcile_row c psp ids a w =
    let result = psp a.card_token a.amount_cents.cents a.idempotency_key in
    record {
      db =
          (finalize_for_reconciler c (ids.event_id a.id) ids.finalize_now (row_claim a) result
            w.db).1;
      charges = row_charge a ∷ w.charges;
    }

unfoldable pub reconcile_rows : Crates → Psp → TickIds → List PaymentAttempt → World → World
unfolding reconcile_row
reconcile_rows c psp ids [] w = w
reconcile_rows c psp ids (a ∷ rows) w = reconcile_rows c psp ids rows (reconcile_row c psp ids a w)

abbrev pub leased_rows : Time → Db → List PaymentAttempt
leased_rows now db =
    let ids = due_ids now db in where_ (picked ids) (update (picked ids) (leased now) db.attempts)

-- `tick`, with no other request between its steps.
unfoldable pub tick : Crates → Psp → TickIds → World → World
unfolding lease reconcile_rows
tick c psp ids w =
    let (r, db) = lease ids.now w.db in
    reconcile_rows c psp ids (leased_rows ids.now w.db) (record w { db = db })

-- What ends the wait of the loop in `run`: the shutdown token, or the timer, with the provider and the
-- ids of the tick that follows.
pub data Wake : Type 0 where
  cancelled : Wake
  elapsed : Psp → TickIds → Wake

-- `run`
unfoldable pub run : Crates → List Wake → World → World
unfolding tick
run c [] w = w
run c (cancelled ∷ wakes) w = w
run c (elapsed psp ids ∷ wakes) w = run c wakes (tick c psp ids w)
