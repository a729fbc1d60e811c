-- ===== src/System/Attempts.antt =====
-- What the transactions of the service do to a payment attempt.
use mathlib.Core.Path.{subst}
use invoice_payment_service.Prelude.{◌≤◌, ◌≡◌, refl, sym, ◌∙◌, ap, some, List, arith}
use invoice_payment_service.Prelude.Int.{ℤ}
use invoice_payment_service.Errors.{AppError, Result, ok, err}
use invoice_payment_service.Domain.{Uuid}
use invoice_payment_service.Domain.Invoice.{InvoiceResponse, CreateInvoiceRequest}
use invoice_payment_service.Domain.Payment.{PaymentAttempt}
use invoice_payment_service.Table.{find, count, amend}
use invoice_payment_service.Table.Laws.{
  find-insert, find-update, exists_of_find, count-insert, count-update, count_of_not_exists,
}
use invoice_payment_service.Db.{Db}
use invoice_payment_service.InvoiceService.{NewInvoice, create}
use invoice_payment_service.InvoiceService.Creation.{create-CreatesWith}
use invoice_payment_service.InvoiceService.Created.{CreatesWith}
use invoice_payment_service.PaymentService.Types.{Claim}
use invoice_payment_service.PaymentService.Statements.{attempt_is}
use invoice_payment_service.PaymentService.Interleaving.{
  Step, claim_step, finalize_step, lease_step, transition_step, other_step,
}
use invoice_payment_service.System.Frames.{
  create_key-Aside, revoke-Aside, create_customer-Aside, register_endpoint-Aside,
  redeliver-SameCore, fan_out-SameCore, lease-SameCore, record_sent-SameCore,
}
use invoice_payment_service.System.{
  Txn, claims, finalizes, polls, creates, moves, adds_customer, adds_key, revokes, registers,
  redelivers, fans_out, leases, records, Txns, later, Knows,
}
use invoice_payment_service.System.AttemptWrites.{
  AttemptWrite, SameAttempt, SameAttempt-refl, SameAttempt-trans, Step-AttemptWrite, amended, made,
  untouched,
}

pub create-attempts :
    (total : ℤ) (ids : NewInvoice) (b : Uuid) (req : CreateInvoiceRequest) (db : Db)
    (r : Result InvoiceResponse AppError × Db)
    → CreatesWith total ids b req db r
    → r.1.attempts ≡ db.attempts
create-attempts total ids b req db (ok resp, db') (_, _, _, _, _, _, frame) =
    ap (λ d. d.attempts) frame
create-attempts total ids b req db (err e, db') same = ap (λ d. d.attempts) same

-- To the payment flow, a transaction is one of its own, or one that leaves the attempts alone.
pub Txn-Step : {db db' : Db} → Txn db db' → Step db db'
Txn-Step (claims ids b key token fp seen {db = db} read r) =
    claim_step ids b seen.id key token fp seen.state seen.total_cents.cents db
Txn-Step (finalizes c e now q result {db = db} known r) = finalize_step c e now q result db
Txn-Step (polls now db) = lease_step now db
Txn-Step (creates ids b req db) =
    other_step db _
      (create-attempts _ ids b req db (create ids b req db) (create-CreatesWith ids b req db))
Txn-Step (moves b id from to now db legal) = transition_step b id from to now db
Txn-Step (adds_customer eq id now b req db) =
    other_step db _ (create_customer-Aside eq id now b req db).attempts_same
Txn-Step (adds_key sha256 random id now b name env db) =
    other_step db _ (create_key-Aside sha256 random id now b name env db).attempts_same
Txn-Step (revokes now b id db) = other_step db _ (revoke-Aside now b id db).attempts_same
Txn-Step (registers hex id secret b req db) =
    other_step db _ (register_endpoint-Aside hex id secret b req db).attempts_same
Txn-Step (redelivers now b id db) = other_step db _ (redeliver-SameCore now b id db).attempts_same
Txn-Step (fans_out new_id now db) = other_step db _ (fan_out-SameCore new_id now db).attempts_same
Txn-Step (leases now db) = other_step db _ (lease-SameCore now db).attempts_same
Txn-Step (records limit draw now id n sent db) =
    other_step db _ (record_sent-SameCore limit draw now id n sent db).attempts_same

pub Txn-AttemptWrite : {db db' : Db} → Txn db db' → AttemptWrite db.attempts db'.attempts
Txn-AttemptWrite t = Step-AttemptWrite (Txn-Step t)

-- An attempt is there for ever.
abbrev KeptIn : Uuid → PaymentAttempt → List PaymentAttempt → Type 0
KeptIn id a t = (a' : PaymentAttempt) × (find (attempt_is id) t ≡ some a') × SameAttempt a a'

write-KeptIn :
    (id : Uuid) (a : PaymentAttempt) (t t' : List PaymentAttempt)
    → AttemptWrite t t'
    → find (attempt_is id) t ≡ some a
    → KeptIn id a t'
write-KeptIn id a t t' (untouched same) found =
    (a, ap (find (attempt_is id)) same ∙ found, SameAttempt-refl a)
write-KeptIn id a t t' (made new fresh w) found = (
  a,
  ap (find (attempt_is id)) w
      ∙ find-insert (attempt_is id) new t
      ∙ rw (exists_of_find (attempt_is id) a t found).0 found,
  SameAttempt-refl a,
)
write-KeptIn id a t t' (amended p f keep w) found = (
  amend p f a,
  ap (find (attempt_is id)) w
      ∙ find-update (attempt_is id) p f t (λ s. rw (keep s).same_id refl)
      ∙ rw found refl,
  keep a,
)

Txns-KeptIn :
    {db db' : Db}
    → Txns db db'
    → (id : Uuid) (a : PaymentAttempt) → find (attempt_is id) db.attempts ≡ some a
    → KeptIn id a db'.attempts
Txns-KeptIn Txns.here id a found = (a, found, SameAttempt-refl a)
Txns-KeptIn (later {db2 = db2} {db3 = db3} h t) id a found =
    let (s, seen, before) = Txns-KeptIn h id a found in
    let (s', there, after) =
      write-KeptIn id s db2.attempts db3.attempts (Txn-AttemptWrite t) seen in
    (s', there, SameAttempt-trans before after)

-- What a task knows of an attempt stays true.
pub Txns-Knows : {db db' : Db} → Txns db db' → (q : Claim) → Knows q db → Knows q db'
Txns-Knows h q (a, found, invoice, business) =
    let (a', there, same) = Txns-KeptIn h q.attempt_id a found in
    (a', there, same.same_invoice ∙ invoice, same.same_business ∙ business)

-- The primary key of `payment_attempts`.
abbrev pub AttemptIdsDiffer : List PaymentAttempt → Type 0
AttemptIdsDiffer t = (id : Uuid) → count (attempt_is id) t ≤ 1

pub write-AttemptIdsDiffer :
    (t t' : List PaymentAttempt) → AttemptWrite t t' → AttemptIdsDiffer t → AttemptIdsDiffer t'
write-AttemptIdsDiffer t t' (untouched same) h = subst AttemptIdsDiffer (sym same) h
write-AttemptIdsDiffer t t' (made a fresh w) h = subst AttemptIdsDiffer (sym w) λ id.
    ground
      (arith, h id, count-insert (attempt_is id) a t, count_of_not_exists (attempt_is a.id) t fresh)
write-AttemptIdsDiffer t t' (amended p f keep w) h =
    subst AttemptIdsDiffer (sym w)
      λ id. omega (arith, h id, count-update (attempt_is id) p f t (λ s. rw (keep s).same_id refl))
