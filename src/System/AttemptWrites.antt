-- ===== src/System/AttemptWrites.antt =====
-- How the transactions of the payment flow write the table of payment attempts.
use mathlib.Core.Path.{subst}
use invoice_payment_service.Prelude.{
  ◌≡◌, refl, sym, ◌∙◌, ap, Bool, false, inl, inr, List, arith, Bool-cases, if◌then◌else◌,
}
use invoice_payment_service.Domain.{Uuid, Time}
use invoice_payment_service.Domain.Invoice.{InvoiceState}
use invoice_payment_service.Domain.Payment.{PaymentAttempt, PspResult, declined, unknown}
use invoice_payment_service.Table.{exists, amend, insert, update}
use invoice_payment_service.Db.{Db}
use invoice_payment_service.InvoiceRepo.{transition}
use invoice_payment_service.PaymentService.Statements.{
  attempt_is, pending_is, succeeded_attempt, failed_attempt, unknown_attempt, mark_succeeded,
  mark_failed, mark_unknown, mark_paid, complete_key,
}
use invoice_payment_service.PaymentService.Outcomes.{
  claim-cases, claim_row, finalize_succeeded-cases, finalize_declined-cases, finalize_unknown_lem,
}
use invoice_payment_service.PaymentService.Interleaving.{
  Step, claim_step, finalize_step, lease_step, transition_step, other_step,
}
use invoice_payment_service.Tenants.Payments.{claimed_is_new}
use invoice_payment_service.Reconciler.{lease, picked, due_ids, leased}

pub transition-attempts :
    (b id : Uuid) (from to : InvoiceState) (now : Time) (db : Db)
    → (transition b id from to now db).1.attempts ≡ db.attempts
unfolding transition
transition-attempts b id from to now db = ground arith

-- What never changes of an attempt.
pub record SameAttempt (a a' : PaymentAttempt) : Type 0 where
  pub same_id : a'.id ≡ a.id
  pub same_invoice : a'.invoice_id ≡ a.invoice_id
  pub same_business : a'.business_id ≡ a.business_id
  pub same_amount : a'.amount_cents ≡ a.amount_cents
  pub same_key : a'.idempotency_key ≡ a.idempotency_key
  pub same_token : a'.card_token ≡ a.card_token

pub SameAttempt-refl : (a : PaymentAttempt) → SameAttempt a a
SameAttempt-refl a = record {
  same_id = refl;
  same_invoice = refl;
  same_business = refl;
  same_amount = refl;
  same_key = refl;
  same_token = refl;
}

pub SameAttempt-trans :
    {a b c : PaymentAttempt} → SameAttempt a b → SameAttempt b c → SameAttempt a c
SameAttempt-trans h k = record {
  same_id = k.same_id ∙ h.same_id;
  same_invoice = k.same_invoice ∙ h.same_invoice;
  same_business = k.same_business ∙ h.same_business;
  same_amount = k.same_amount ∙ h.same_amount;
  same_key = k.same_key ∙ h.same_key;
  same_token = k.same_token ∙ h.same_token;
}

-- The ways in which a transaction writes the table of attempts.
pub data AttemptWrite (t t' : List PaymentAttempt) : Type 0 where
  untouched : t' ≡ t → AttemptWrite t t'
  made :
      (a : PaymentAttempt)
      → exists (attempt_is a.id) t ≡ false
      → t' ≡ insert a t
      → AttemptWrite t t'
  amended :
      (p : PaymentAttempt → Bool) (f : PaymentAttempt → PaymentAttempt)
      → ((a : PaymentAttempt) → SameAttempt a (amend p f a))
      → t' ≡ update p f t
      → AttemptWrite t t'

keeps :
    (p : PaymentAttempt → Bool) (f : PaymentAttempt → PaymentAttempt)
    → ((a : PaymentAttempt) → SameAttempt a (f a))
    → (a : PaymentAttempt) → SameAttempt a (amend p f a)
keeps p f h a = elim (Bool-cases (p a)) [
  | inl hit ↦ subst (λ b. SameAttempt a (if b then f a else a)) (sym hit) (h a)
  | inr miss ↦ subst (λ b. SameAttempt a (if b then f a else a)) (sym miss) (SameAttempt-refl a)
]

pub Step-AttemptWrite : {db db' : Db} → Step db db' → AttemptWrite db.attempts db'.attempts
unfolding mark_succeeded mark_failed mark_unknown mark_paid complete_key lease
Step-AttemptWrite (claim_step ids b i key token fp state amount db) =
    elim (claim-cases ids b i key token fp amount db state) [
      | inl (e, p) ↦ untouched (rw p refl)
      | inr (inl (old, p)) ↦ untouched (rw p refl)
      | inr (inr (new, payable, idle, p)) ↦
          made (claim_row ids b i key token fp amount db)
            (claimed_is_new ids b i key token fp amount db state (ap (λ r. r.0) p)) (rw p refl)
    ]
Step-AttemptWrite (finalize_step c e now q (PspResult.succeeded psp_ref) db) =
    elim (finalize_succeeded-cases e now q db c psp_ref) [
      | inl (e, p) ↦ untouched (rw p refl)
      | inr p ↦
          amended (pending_is q.attempt_id) (succeeded_attempt psp_ref now)
            (keeps (pending_is q.attempt_id) (succeeded_attempt psp_ref now) (λ a. ground arith))
            (rw p refl)
    ]
Step-AttemptWrite (finalize_step c e now q (declined code) db) =
    elim (finalize_declined-cases e now q db c code) [
      | inl (e, p) ↦ untouched (rw p refl)
      | inr p ↦
          amended (pending_is q.attempt_id) (failed_attempt code now)
            (keeps (pending_is q.attempt_id) (failed_attempt code now) (λ a. ground arith))
            (rw p refl)
    ]
Step-AttemptWrite (finalize_step c e now q (unknown reason) db) =
    amended (pending_is q.attempt_id) (unknown_attempt reason now)
      (keeps (pending_is q.attempt_id) (unknown_attempt reason now) (λ a. ground arith))
      (rw (finalize_unknown_lem e now q db c reason) refl)
Step-AttemptWrite (lease_step now db) =
    amended (picked (due_ids now db)) (leased now)
      (keeps (picked (due_ids now db)) (leased now) (λ a. ground arith)) refl
Step-AttemptWrite (transition_step b id from to now db) =
    untouched (transition-attempts b id from to now db)
Step-AttemptWrite (other_step db db' same) = untouched same
