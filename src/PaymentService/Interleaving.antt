-- ===== src/PaymentService/Interleaving.antt =====
-- Requests and tasks that interleave. Each transaction is one step; what a request has read before
-- its transaction is arbitrary, so that every interleaving of payments, admin requests and the
-- reconciler is a sequence of these steps.
use invoice_payment_service.Prelude.{
  ℕ, ◌≤◌, String, ◌≡◌, ◌≢◌, inl, inr, Bool, true, false, ◌&&◌, List, arith, ◌==◌, Bool-cases,
}
use native.Mathlib.Nat.{le_trans}
use invoice_payment_service.Prelude.Int.{ℤ}
use invoice_payment_service.Domain.{Uuid, Time}
use invoice_payment_service.Domain.Invoice.{InvoiceState}
use invoice_payment_service.Domain.Payment.{
  PaymentStatus, PaymentAttempt, PspResult, declined, unknown,
}
use invoice_payment_service.Table.{exists, count}
use invoice_payment_service.Table.Laws.{
  count-insert, count-update, count-le-update, count-le, count_of_exists, count_of_not_exists,
}
use invoice_payment_service.Db.{Db}
use invoice_payment_service.InvoiceRepo.{transition}
use invoice_payment_service.PaymentService.Types.{Crates, Claim}
use invoice_payment_service.PaymentService.Statements.{
  active_for, pending_is, succeeded_attempt, failed_attempt, unknown_attempt, mark_succeeded,
  mark_failed, mark_unknown, mark_paid, complete_key,
}
use invoice_payment_service.PaymentService.Finalize.{finalize}
use invoice_payment_service.PaymentService.Pay.{PayIds, claimed, claim}
use invoice_payment_service.PaymentService.ActiveAttempt.{
  AtMostOneActive, claim-AtMostOneActive, finalize-AtMostOneActive,
}
use invoice_payment_service.PaymentService.Outcomes.{
  claim-cases, finalize_succeeded-cases, finalize_declined-cases, finalize_unknown_lem, claim_row,
}
use invoice_payment_service.Reconciler.{lease, due_ids, picked, leased}

-- One committed transaction.
pub data Step : Db → Db → Type 0 where
  claim_step :
      (ids : PayIds) (business_id invoice_id : Uuid) (key card_token : String) (fp : List ℕ)
      (state : InvoiceState) (amount : ℤ) (db : Db)
      → Step db (claim ids business_id invoice_id key card_token fp state amount db).1
  finalize_step :
      (c : Crates) (event_id : Uuid) (now : Time) (q : Claim) (result : PspResult) (db : Db)
      → Step db (finalize c event_id now q result db).1
  lease_step : (now : Time) (db : Db) → Step db (lease now db).1
  transition_step :
      (business_id id : Uuid) (from to : InvoiceState) (now : Time) (db : Db)
      → Step db (transition business_id id from to now db).1
  -- A statement of another service, which leaves the attempts alone.
  other_step : (db db' : Db) → db'.attempts ≡ db.attempts → Step db db'

-- Any number of them.
pub data Reach : Db → Db → Type 0 where
  here : {db : Db} → Reach db db
  step : {db1 db2 db3 : Db} → Step db1 db2 → Reach db2 db3 → Reach db1 db3

abbrev is_succeeded : PaymentStatus → Bool
is_succeeded PaymentStatus.succeeded = true
is_succeeded _ = false

abbrev pub succeeded_for : Uuid → PaymentAttempt → Bool
succeeded_for i a = a.invoice_id == i && is_succeeded a.status

lease-AtMostOneActive :
    (now : Time) (db : Db) → AtMostOneActive db → AtMostOneActive (lease now db).1
unfolding lease
lease-AtMostOneActive now db h i = omega (
  arith,
  h i,
  count-update (active_for i) (picked (due_ids now db)) (leased now) db.attempts
      (λ r. ground arith),
)

attempts-transition :
    (business_id id : Uuid) (from to : InvoiceState) (now : Time) (db : Db)
    → (transition business_id id from to now db).1.attempts ≡ db.attempts
unfolding transition
attempts-transition business_id id from to now db = ground arith

Step-AtMostOneActive : {db db' : Db} → Step db db' → AtMostOneActive db → AtMostOneActive db'
Step-AtMostOneActive (claim_step ids b i key token fp s n db) h =
    claim-AtMostOneActive ids b i key token fp s n db h
Step-AtMostOneActive (finalize_step c e now q r db) h = finalize-AtMostOneActive c e now q r db h
Step-AtMostOneActive (lease_step now db) h = lease-AtMostOneActive now db h
Step-AtMostOneActive (transition_step b id from to now db) h =
    λ i. rw (attempts-transition b id from to now db) (h i)
Step-AtMostOneActive (other_step db db' same) h = λ i. rw same (h i)

-- In every state that interleaved requests can reach, every invoice has at most one attempt that is
-- pending or has succeeded, if this held at the start.
pub Reach-AtMostOneActive : {db db' : Db} → Reach db db' → AtMostOneActive db → AtMostOneActive db'
Reach-AtMostOneActive here h = h
Reach-AtMostOneActive (step s r) h = Reach-AtMostOneActive r (Step-AtMostOneActive s h)

abbrev succeeded_count : Uuid → Db → ℕ
succeeded_count i db = count (succeeded_for i) db.attempts

finalize-succeeded_count :
    (i : Uuid) (c : Crates) (event_id : Uuid) (now : Time) (q : Claim) (result : PspResult)
    (db : Db)
    → succeeded_count i db ≤ succeeded_count i (finalize c event_id now q result db).1
unfolding mark_succeeded mark_failed mark_unknown mark_paid complete_key
finalize-succeeded_count i c event_id now q (PspResult.succeeded psp_ref) db =
    elim (finalize_succeeded-cases event_id now q db c psp_ref) [
      | inl (e, p) ↦ rw p (omega arith)
      | inr p ↦ rw p (
          count-le-update (succeeded_for i) (pending_is q.attempt_id)
            (succeeded_attempt psp_ref now) db.attempts (λ r. ground arith))
    ]
finalize-succeeded_count i c event_id now q (declined code) db =
    elim (finalize_declined-cases event_id now q db c code) [
      | inl (e, p) ↦ rw p (omega arith)
      | inr p ↦ rw p (
          count-le-update (succeeded_for i) (pending_is q.attempt_id) (failed_attempt code now)
            db.attempts (λ r. ground arith))
    ]
finalize-succeeded_count i c event_id now q (unknown reason) db =
    rw (finalize_unknown_lem event_id now q db c reason) (
      count-le-update (succeeded_for i) (pending_is q.attempt_id) (unknown_attempt reason now)
        db.attempts (λ r. ground arith))

claim-succeeded_count :
    (i : Uuid) (ids : PayIds) (business_id invoice_id : Uuid) (key card_token : String)
    (fp : List ℕ) (state : InvoiceState) (amount : ℤ) (db : Db)
    → succeeded_count i db
      ≤ succeeded_count i (claim ids business_id invoice_id key card_token fp state amount db).1
claim-succeeded_count i ids business_id invoice_id key card_token fp state amount db =
    elim (claim-cases ids business_id invoice_id key card_token fp amount db state) [
      | inl (e, p) ↦ rw p (omega arith)
      | inr (inl (old, p)) ↦ rw p (omega arith)
      | inr (inr (new, payable, idle, p)) ↦ rw p (
          omega (
            arith,
            count-insert (succeeded_for i)
                (claim_row ids business_id invoice_id key card_token fp amount db) db.attempts,
          ))
    ]

lease-succeeded_count :
    (i : Uuid) (now : Time) (db : Db) → succeeded_count i (lease now db).1 ≡ succeeded_count i db
unfolding lease
lease-succeeded_count i now db =
    count-update (succeeded_for i) (picked (due_ids now db)) (leased now) db.attempts
      (λ r. ground arith)

Step-succeeded_count :
    (i : Uuid) {db db' : Db} → Step db db' → succeeded_count i db ≤ succeeded_count i db'
Step-succeeded_count i (claim_step ids b inv key token fp s n db) =
    claim-succeeded_count i ids b inv key token fp s n db
Step-succeeded_count i (finalize_step c e now q r db) = finalize-succeeded_count i c e now q r db
Step-succeeded_count i (lease_step now db) = omega (arith, lease-succeeded_count i now db)
Step-succeeded_count i (transition_step b id from to now db) =
    rw (attempts-transition b id from to now db) (omega arith)
Step-succeeded_count i (other_step db db' same) = rw same (omega arith)

pub Reach-succeeded_count :
    (i : Uuid) {db db' : Db} → Reach db db' → succeeded_count i db ≤ succeeded_count i db'
Reach-succeeded_count i here = omega arith
Reach-succeeded_count i (step s r) = le_trans (Step-succeeded_count i s) (Reach-succeeded_count i r)

pub succeeded_is_active :
    (i : Uuid) (db : Db) → 1 ≤ succeeded_count i db → exists (active_for i) db.attempts ≡ true
succeeded_is_active i db h = elim (Bool-cases (exists (active_for i) db.attempts)) [
  | inl active ↦ active
  | inr idle ↦ absurd (
      omega (
        arith,
        h,
        count-le (succeeded_for i) (active_for i) db.attempts (λ r. ground arith),
        count_of_not_exists (active_for i) db.attempts idle,
      ))
]

-- Once an attempt for an invoice has succeeded, no request can claim another one: in every state
-- that interleaved requests can reach from there, whatever the request's ids, its key, its
-- fingerprint and the state of the invoice that it has read, the first transaction does not end
-- with a claim, and so the provider is not called for it.
no_claim_after_success :
    {db db' : Db}
    → Reach db db'
    → (invoice_id : Uuid) → exists (succeeded_for invoice_id) db.attempts ≡ true
    → (ids : PayIds) (business_id : Uuid) (key card_token : String) (fp : List ℕ)
      (state : InvoiceState) (amount : ℤ)
    → (claim ids business_id invoice_id key card_token fp state amount db').0 ≢ claimed
no_claim_after_success {db = db} {db' = db'} r invoice_id paid_by ids business_id key card_token fp
      state amount h =
    let paid_before = count_of_exists (succeeded_for invoice_id) db.attempts paid_by in
    let active =
      succeeded_is_active invoice_id db'
        (le_trans paid_before (Reach-succeeded_count invoice_id r)) in
    elim (claim-cases ids business_id invoice_id key card_token fp amount db' state) [
      | inl (e, p) ↦ ground arith
      | inr (inl (old, p)) ↦ ground arith
      | inr (inr (new, payable, idle, p)) ↦ ground arith
    ]
