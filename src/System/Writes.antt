-- ===== src/System/Writes.antt =====
-- How the transactions of the service write the invoices and their line items.
use invoice_payment_service.Prelude.{
  ℕ, String, ◌≡◌, refl, ap, Bool, true, false, inl, inr, List, Option-cases,
}
use invoice_payment_service.Prelude.Int.{ℤ}
use invoice_payment_service.Errors.{AppError, Result, ok, err}
use invoice_payment_service.Domain.{Uuid, Time}
use invoice_payment_service.Domain.Invoice.{
  InvoiceState, can_transition_to, Invoice, InvoiceResponse, CreateInvoiceRequest,
}
use invoice_payment_service.Domain.Payment.{PspResult, declined, unknown}
use invoice_payment_service.Table.{find, exists, amend, insert, update}
use invoice_payment_service.Db.{Db}
use invoice_payment_service.InvoiceRepo.{invoice_is, in_state, transitioned, transition, sum_items}
use invoice_payment_service.InvoiceService.{NewInvoice, create}
use invoice_payment_service.InvoiceService.Items.{SameItemsElsewhere}
use invoice_payment_service.InvoiceService.Creation.{create-CreatesWith}
use invoice_payment_service.InvoiceService.Created.{CreatesWith}
use invoice_payment_service.PaymentService.Types.{Crates, Claim}
use invoice_payment_service.PaymentService.Statements.{
  open_invoice, paid_invoice, mark_succeeded, mark_failed, mark_unknown, mark_paid, complete_key,
}
use invoice_payment_service.PaymentService.Pay.{PayIds, claim}
use invoice_payment_service.PaymentService.Finalize.{finalize}
use invoice_payment_service.PaymentService.Outcomes.{
  claim-cases, finalize_succeeded-cases, finalize_declined-cases, finalize_unknown_lem,
}
use invoice_payment_service.Reconciler.{lease}
use invoice_payment_service.System.Frames.{
  create_key-Aside, revoke-Aside, create_customer-Aside, register_endpoint-Aside,
  redeliver-SameCore, fan_out-SameCore, lease-SameCore, record_sent-SameCore,
}
use invoice_payment_service.System.{
  Txn, claims, finalizes, polls, creates, moves, adds_customer, adds_key, revokes, registers,
  redelivers, fans_out, leases, records,
}
use invoice_payment_service.System.Evolution.{Evolved, paid_evolves, transition_evolves}

-- The ways in which a transaction writes the invoices and their line items.
pub data InvoiceWrite (db db' : Db) : Type 0 where
  untouched : db'.invoices ≡ db.invoices → db'.line_items ≡ db.line_items → InvoiceWrite db db'
  created :
      (r : Invoice)
      → exists (invoice_is r.id) db.invoices ≡ false
      → db'.invoices ≡ insert r db.invoices
      → SameItemsElsewhere r.id db db'
      → sum_items r.id db' ≡ r.total_cents.cents
      → InvoiceWrite db db'
  evolved :
      (p : Invoice → Bool) (f : Invoice → Invoice)
      → ((r : Invoice) → Evolved r (amend p f r))
      → db'.invoices ≡ update p f db.invoices
      → db'.line_items ≡ db.line_items
      → InvoiceWrite db db'

finalize-InvoiceWrite :
    (c : Crates) (event_id : Uuid) (now : Time) (q : Claim) (result : PspResult) (db : Db)
    → InvoiceWrite db (finalize c event_id now q result db).1
unfolding mark_succeeded mark_failed mark_unknown mark_paid complete_key
finalize-InvoiceWrite c event_id now q (PspResult.succeeded psp_ref) db =
    elim (finalize_succeeded-cases event_id now q db c psp_ref) [
      | inl (e, p) ↦ untouched (rw p refl) (rw p refl)
      | inr p ↦
          evolved (open_invoice q.invoice_id) (paid_invoice now) (paid_evolves q.invoice_id now)
            (rw p refl) (rw p refl)
    ]
finalize-InvoiceWrite c event_id now q (declined code) db =
    elim (finalize_declined-cases event_id now q db c code) [
      | inl (e, p) ↦ untouched (rw p refl) (rw p refl)
      | inr p ↦ untouched (rw p refl) (rw p refl)
    ]
finalize-InvoiceWrite c event_id now q (unknown reason) db =
    untouched (rw (finalize_unknown_lem event_id now q db c reason) refl)
      (rw (finalize_unknown_lem event_id now q db c reason) refl)

claim-InvoiceWrite :
    (ids : PayIds) (b i : Uuid) (key card_token : String) (fp : List ℕ) (state : InvoiceState)
    (amount : ℤ) (db : Db)
    → InvoiceWrite db (claim ids b i key card_token fp state amount db).1
claim-InvoiceWrite ids b i key card_token fp state amount db =
    elim (claim-cases ids b i key card_token fp amount db state) [
      | inl (e, p) ↦ untouched (rw p refl) (rw p refl)
      | inr (inl (old, p)) ↦ untouched (rw p refl) (rw p refl)
      | inr (inr (new, payable, idle, p)) ↦ untouched (rw p refl) (rw p refl)
    ]

created-InvoiceWrite :
    (total : ℤ) (ids : NewInvoice) (b : Uuid) (req : CreateInvoiceRequest) (db : Db)
    (r : Result InvoiceResponse AppError × Db)
    → CreatesWith total ids b req db r
    → InvoiceWrite db r.1
created-InvoiceWrite total ids b req db (ok resp, db') (_, _, fresh, elsewhere, sum, _, frame) =
    created _ fresh (ap (λ d. d.invoices) frame) elsewhere sum
created-InvoiceWrite total ids b req db (err e, db') same =
    untouched (ap (λ d. d.invoices) same) (ap (λ d. d.line_items) same)

transition-InvoiceWrite :
    (b id : Uuid) (from to : InvoiceState) (now : Time) (db : Db)
    → can_transition_to from to ≡ true
    → InvoiceWrite db (transition b id from to now db).1
unfolding transition
transition-InvoiceWrite b id from to now db legal =
    elim (Option-cases (find (in_state b id from) db.invoices)) [
      | inl missing ↦ untouched (rw (missing, transition) refl) (rw (missing, transition) refl)
      | inr (r, found) ↦
          evolved (in_state b id from) (transitioned to now)
            (transition_evolves b id from to now legal) (rw (found, transition) refl)
            (rw (found, transition) refl)
    ]

-- Every transaction writes the invoices in one of these ways.
pub Txn-InvoiceWrite : {db db' : Db} → Txn db db' → InvoiceWrite db db'
unfolding lease
Txn-InvoiceWrite (claims ids b key token fp seen {db = db} read r) =
    claim-InvoiceWrite ids b seen.id key token fp seen.state seen.total_cents.cents db
Txn-InvoiceWrite (finalizes c e now q result {db = db} known r) =
    finalize-InvoiceWrite c e now q result db
Txn-InvoiceWrite (polls now db) = untouched refl refl
Txn-InvoiceWrite (creates ids b req db) =
    created-InvoiceWrite _ ids b req db (create ids b req db) (create-CreatesWith ids b req db)
Txn-InvoiceWrite (moves b id from to now db legal) =
    transition-InvoiceWrite b id from to now db legal
Txn-InvoiceWrite (adds_customer eq id now b req db) =
    untouched (create_customer-Aside eq id now b req db).invoices_same
      (create_customer-Aside eq id now b req db).items_same
Txn-InvoiceWrite (adds_key sha256 random id now b name env db) =
    untouched (create_key-Aside sha256 random id now b name env db).invoices_same
      (create_key-Aside sha256 random id now b name env db).items_same
Txn-InvoiceWrite (revokes now b id db) =
    untouched (revoke-Aside now b id db).invoices_same (revoke-Aside now b id db).items_same
Txn-InvoiceWrite (registers hex id secret b req db) =
    untouched (register_endpoint-Aside hex id secret b req db).invoices_same
      (register_endpoint-Aside hex id secret b req db).items_same
Txn-InvoiceWrite (redelivers now b id db) =
    untouched (redeliver-SameCore now b id db).invoices_same
      (redeliver-SameCore now b id db).items_same
Txn-InvoiceWrite (fans_out new_id now db) =
    untouched (fan_out-SameCore new_id now db).invoices_same
      (fan_out-SameCore new_id now db).items_same
Txn-InvoiceWrite (leases now db) =
    untouched (lease-SameCore now db).invoices_same (lease-SameCore now db).items_same
Txn-InvoiceWrite (records limit draw now id n sent db) =
    untouched (record_sent-SameCore limit draw now id n sent db).invoices_same
      (record_sent-SameCore limit draw now id n sent db).items_same
