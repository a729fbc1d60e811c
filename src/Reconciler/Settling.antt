-- ===== src/Reconciler/Settling.antt =====
-- A tick of the reconciler settles the attempts that it leases, where the provider knows the outcome.
use mathlib.Core.Path.{subst}
use invoice_payment_service.Prelude.{
  ◌≤◌, ◌≡◌, refl, sym, ◌∙◌, ap, Bool, true, false, not, ◌&&◌, some, List, [], ◌∷◌, arith, ◌==◌,
  ==_iff, Bool-cases, ◌⊎◌, inl, inr,
}
use invoice_payment_service.Domain.{Uuid, Time}
use invoice_payment_service.Domain.Payment.{PaymentAttempt, PspResult, declined, unknown}
use invoice_payment_service.Table.{find, exists, count, update}
use invoice_payment_service.Table.Claimed
use invoice_payment_service.Table.Laws.{count-update-le, exists-insert, exists_of_find}
use invoice_payment_service.Db.{Db}
use invoice_payment_service.WebhookEvents.{event_is}
use invoice_payment_service.PaymentService.Types.{Crates, Psp, World, Claim}
use invoice_payment_service.PaymentService.Statements.{
  is_pending, attempt_is, pending_is, succeeded_attempt, failed_attempt, unknown_attempt,
  mark_succeeded, mark_failed, mark_unknown, mark_paid, complete_key,
}
use invoice_payment_service.PaymentService.Finalize.{finalize, finalize_for_reconciler_lem}
use invoice_payment_service.PaymentService.Outcomes.{
  finalize_succeeded-cases, finalize_declined-cases, finalize_unknown_lem,
}
use invoice_payment_service.PaymentService.Settled.{succeeded_lem, declined_lem}
use invoice_payment_service.Reconciler.{
  is_in, due_ids, attempt_id, lease, leased, picked, leased_rows, row_claim, TickIds, reconcile_row,
  reconcile_rows, tick,
}

-- An outcome that is known.
abbrev is_definite : PspResult → Bool
is_definite (PspResult.succeeded psp_ref) = true
is_definite (declined code) = true
is_definite (unknown reason) = false

-- What a second transaction does to the pending attempts with an id, and to the ids of the events.
module _ (c : Crates) (event_id : Uuid) (now : Time) (q : Claim) (id : Uuid) where
  fewer_pending :
      (result : PspResult) (db : Db)
      → count (pending_is id) (finalize c event_id now q result db).1.attempts
        ≤ count (pending_is id) db.attempts
  unfolding mark_succeeded mark_failed mark_unknown mark_paid complete_key
  fewer_pending (PspResult.succeeded psp_ref) db =
      elim (finalize_succeeded-cases event_id now q db c psp_ref) [
        | inl (e, p) ↦ rw p (omega arith)
        | inr p ↦ rw p (
            count-update-le (pending_is id) (pending_is q.attempt_id)
              (succeeded_attempt psp_ref now) db.attempts (λ r. ground arith))
      ]
  fewer_pending (declined code) db = elim (finalize_declined-cases event_id now q db c code) [
    | inl (e, p) ↦ rw p (omega arith)
    | inr p ↦ rw p (
        count-update-le (pending_is id) (pending_is q.attempt_id) (failed_attempt code now)
          db.attempts (λ r. ground arith))
  ]
  fewer_pending (unknown reason) db = rw (finalize_unknown_lem event_id now q db c reason) (
      count-update-le (pending_is id) (pending_is q.attempt_id) (unknown_attempt reason now)
        db.attempts (λ r. ground arith))

  -- The event of another row takes no id but its own.
  other_event :
      (other : Uuid) (result : PspResult) (db : Db)
      → (event_id == other) ≡ false
      → exists (event_is other) db.events ≡ false
      → exists (event_is other) (finalize c event_id now q result db).1.events ≡ false
  unfolding mark_succeeded mark_failed mark_unknown mark_paid complete_key
  other_event other (PspResult.succeeded psp_ref) db apart fresh =
      elim (finalize_succeeded-cases event_id now q db c psp_ref) [
        | inl (e, p) ↦ rw p fresh
        | inr p ↦ rw p (exists-insert (event_is other) _ db.events ∙ rw (fresh, apart) refl)
      ]
  other_event other (declined code) db apart fresh =
      elim (finalize_declined-cases event_id now q db c code) [
        | inl (e, p) ↦ rw p fresh
        | inr p ↦ rw p (exists-insert (event_is other) _ db.events ∙ rw (fresh, apart) refl)
      ]
  other_event other (unknown reason) db apart fresh =
      rw (finalize_unknown_lem event_id now q db c reason) fresh

none_left :
    (id : Uuid) (f : PaymentAttempt → PaymentAttempt) (t : List PaymentAttempt)
    → ((r : PaymentAttempt) → is_pending (f r).status ≡ false)
    → count (pending_is id) (update (pending_is id) f t) ≡ 0
unfolding count update
none_left id f [] h = refl
none_left id f (r ∷ t) h = elim (Bool-cases (pending_is id r)) [
  | inl mine ↦ rw mine (ground (arith, h r, none_left id f t h))
  | inr other ↦ rw other (ground (arith, none_left id f t h))
]

-- A definite outcome leaves no pending attempt with the id.
definite_settles :
    (c : Crates) (event_id : Uuid) (now : Time) (q : Claim) (result : PspResult) (db : Db)
    → exists (event_is event_id) db.events ≡ false
    → is_definite result ≡ true
    → count (pending_is q.attempt_id) (finalize c event_id now q result db).1.attempts ≡ 0
unfolding mark_succeeded mark_failed mark_paid complete_key
definite_settles c event_id now q (PspResult.succeeded psp_ref) db fresh known =
    rw (succeeded_lem c event_id now q db fresh psp_ref)
      (none_left q.attempt_id (succeeded_attempt psp_ref now) db.attempts (λ r. refl))
definite_settles c event_id now q (declined code) db fresh known =
    rw (declined_lem c event_id now q db fresh code)
      (none_left q.attempt_id (failed_attempt code now) db.attempts (λ r. refl))
definite_settles c event_id now q (unknown reason) db fresh known = absurd cc

-- The rows of a tick, one after the other.
module _ (c : Crates) (psp : Psp) (ids : TickIds) (id : Uuid)
    (apart : (u : Uuid) → (u == id) ≡ false → (ids.event_id u == ids.event_id id) ≡ false) where
  abbrev outcome : PaymentAttempt → PspResult
  outcome a = psp a.card_token a.amount_cents.cents a.idempotency_key

  abbrev finalized : PaymentAttempt → Db → Db
  finalized a db = (finalize c (ids.event_id a.id) ids.finalize_now (row_claim a) (outcome a) db).1

  row_lem : (a : PaymentAttempt) (w : World) → (reconcile_row c psp ids a w).db ≡ finalized a w.db
  unfolding reconcile_row
  row_lem a w =
      finalize_for_reconciler_lem c (ids.event_id a.id) ids.finalize_now (row_claim a) (outcome a)
        w.db

  abbrev Done : Db → Type 0
  Done db = count (pending_is id) db.attempts ≡ 0

  abbrev Todo : List PaymentAttempt → Db → Type 0
  Todo rows db =
      Done db
      ⊎ ((exists (attempt_is id) rows ≡ true)
          × (exists (event_is (ids.event_id id)) db.events ≡ false))

  own_row :
      (a : PaymentAttempt) (db : Db)
      → a.id ≡ id
      → is_definite (outcome a) ≡ true
      → exists (event_is (ids.event_id id)) db.events ≡ false
      → Done (finalized a db)
  own_row a db own known fresh =
      subst (λ i. count (pending_is i) (finalized a db).attempts ≡ 0) own
        (definite_settles c (ids.event_id a.id) ids.finalize_now (row_claim a) (outcome a) db
          (subst (λ i. exists (event_is (ids.event_id i)) db.events ≡ false) (sym own) fresh) known)

  finalized-Done : (a : PaymentAttempt) (db : Db) → Done db → Done (finalized a db)
  finalized-Done a db done = omega (
    arith,
    fewer_pending c (ids.event_id a.id) ids.finalize_now (row_claim a) id (outcome a) db,
    done,
  )

  one_row :
      (a : PaymentAttempt) (rows : List PaymentAttempt) (db : Db)
      → (attempt_is id a && not (is_definite (outcome a))) ≡ false
      → Todo (a ∷ rows) db
      → Todo rows (finalized a db)
  unfolding exists
  one_row a rows db known (inl done) = inl (finalized-Done a db done)
  one_row a rows db known (inr (there, fresh)) = elim (Bool-cases (a.id == id)) [
    | inl own ↦ inl (own_row a db ((==_iff a.id id).0 own) (ground arith) fresh)
    | inr other ↦ inr (
      ground arith,
      other_event c (ids.event_id a.id) ids.finalize_now (row_claim a) id (ids.event_id id)
          (outcome a) db (apart a.id other) fresh,
    )
  ]

  rows_settle :
      (rows : List PaymentAttempt) (w : World)
      → exists (λ a. attempt_is id a && not (is_definite (outcome a))) rows ≡ false
      → Todo rows w.db
      → Done (reconcile_rows c psp ids rows w).db
  unfolding reconcile_rows exists
  rows_settle [] w known (inl done) = done
  rows_settle [] w known (inr (there, fresh)) = absurd cc
  rows_settle (a ∷ rows) w known todo =
      rows_settle rows (reconcile_row c psp ids a w) (ground arith)
        (subst (Todo rows) (sym (row_lem a w)) (one_row a rows w.db (ground arith) todo))

-- An attempt that a tick leases is not pending any more when the tick is over, if the provider's answer
-- for it is definite: where the ids of attempts differ, the id of its event is new, and no other
-- attempt is given the same one.
pub tick_settles :
    (c : Crates) (psp : Psp) (ids : TickIds) (w : World) (id : Uuid) (a : PaymentAttempt)
    → find (attempt_is id) w.db.attempts ≡ some a
    → count (attempt_is id) w.db.attempts ≤ 1
    → is_in (due_ids ids.now w.db) id ≡ true
    → is_definite (psp a.card_token a.amount_cents.cents a.idempotency_key) ≡ true
    → exists (event_is (ids.event_id id)) w.db.events ≡ false
    → ((u : Uuid) → (u == id) ≡ false → (ids.event_id u == ids.event_id id) ≡ false)
    → count (pending_is id) (tick c psp ids w).db.attempts ≡ 0
unfolding tick lease
tick_settles c psp ids w id a found one held known fresh apart =
    let claimed = due_ids ids.now w.db in
    let met : (r : PaymentAttempt) → (r.id == id) ≡ true → picked claimed r ≡ true =
      λ r h. ap (is_in claimed) ((==_iff r.id id).0 h) ∙ held in
    rows_settle c psp ids id apart (leased_rows ids.now w.db) _
      (Claimed.returned_good attempt_id (picked claimed) (leased ids.now) id (λ r. refl) met
        (λ r. is_definite (psp r.card_token r.amount_cents.cents r.idempotency_key)) a w.db.attempts
        found one known)
      (inr (
        (exists_of_find (attempt_is id) (leased ids.now a) (leased_rows ids.now w.db) (
            Claimed.find-returned attempt_id (picked claimed) (leased ids.now) id (λ r. refl) met a
              w.db.attempts found)).0,
        fresh,
      ))
