-- ===== src/System/Invariant/Deliveries.antt =====
-- At most one delivery for an event and an endpoint, in every state of the service.
use mathlib.Core.Path.{subst}
use invoice_payment_service.Prelude.{ℕ, String, ◌≡◌, refl, sym, ap, inl, inr, List, arith}
use invoice_payment_service.Prelude.Int.{ℤ}
use invoice_payment_service.Errors.{AppError, Result, ok, err}
use invoice_payment_service.Domain.{Uuid, Time}
use invoice_payment_service.Domain.Invoice.{InvoiceState, InvoiceResponse, CreateInvoiceRequest}
use invoice_payment_service.Domain.Payment.{PspResult, declined, unknown}
use invoice_payment_service.Domain.Webhook.{WebhookDelivery}
use invoice_payment_service.Db.{Db}
use invoice_payment_service.InvoiceRepo.{transition}
use invoice_payment_service.InvoiceService.{NewInvoice, create}
use invoice_payment_service.InvoiceService.Creation.{create-CreatesWith}
use invoice_payment_service.InvoiceService.Created.{CreatesWith}
use invoice_payment_service.WebhookService.{redeliver, redeliverable, reset_delivery}
use invoice_payment_service.PaymentService.Types.{Crates, Claim}
use invoice_payment_service.PaymentService.Statements.{
  mark_succeeded, mark_failed, mark_unknown, mark_paid, complete_key,
}
use invoice_payment_service.PaymentService.Pay.{PayIds, claim}
use invoice_payment_service.PaymentService.Finalize.{finalize}
use invoice_payment_service.PaymentService.Outcomes.{
  claim-cases, finalize_succeeded-cases, finalize_declined-cases, finalize_unknown_lem,
}
use invoice_payment_service.Reconciler
use invoice_payment_service.Dispatcher.{delivery_is, fan_out, lease, leased, picked, due_ids}
use invoice_payment_service.Dispatcher.FanOut.{fan_out_once}
use invoice_payment_service.Dispatcher.Pairs.{UniquePairs}
use invoice_payment_service.Dispatcher.Settling.{record_sent-Writes}
use invoice_payment_service.Dispatcher.Runs.{update-UniquePairs}
use invoice_payment_service.System.Frames.{
  create_key-Aside, revoke-Aside, create_customer-Aside, register_endpoint-Aside,
}
use invoice_payment_service.System.{
  Txn, claims, finalizes, polls, creates, moves, adds_customer, adds_key, revokes, registers,
  redelivers, fans_out, leases, records,
}

claim-deliveries :
    (ids : PayIds) (b i : Uuid) (key token : String) (fp : List ℕ) (state : InvoiceState)
    (amount : ℤ) (db : Db)
    → (claim ids b i key token fp state amount db).1.deliveries ≡ db.deliveries
claim-deliveries ids b i key token fp state amount db =
    elim (claim-cases ids b i key token fp amount db state) [
      | inl (e, p) ↦ rw p refl
      | inr (inl (old, p)) ↦ rw p refl
      | inr (inr (new, payable, idle, p)) ↦ rw p refl
    ]

finalize-deliveries :
    (c : Crates) (event_id : Uuid) (now : Time) (q : Claim) (result : PspResult) (db : Db)
    → (finalize c event_id now q result db).1.deliveries ≡ db.deliveries
unfolding mark_succeeded mark_failed mark_unknown mark_paid complete_key
finalize-deliveries c event_id now q (PspResult.succeeded psp_ref) db =
    elim (finalize_succeeded-cases event_id now q db c psp_ref) [
      | inl (e, p) ↦ rw p refl
      | inr p ↦ rw p refl
    ]
finalize-deliveries c event_id now q (declined code) db =
    elim (finalize_declined-cases event_id now q db c code) [
      | inl (e, p) ↦ rw p refl
      | inr p ↦ rw p refl
    ]
finalize-deliveries c event_id now q (unknown reason) db =
    rw (finalize_unknown_lem event_id now q db c reason) refl

created-deliveries :
    (total : ℤ) (ids : NewInvoice) (b : Uuid) (req : CreateInvoiceRequest) (db : Db)
    (r : Result InvoiceResponse AppError × Db)
    → CreatesWith total ids b req db r
    → r.1.deliveries ≡ db.deliveries
created-deliveries total ids b req db (ok resp, db') (_, _, _, _, _, _, frame) =
    ap (λ d. d.deliveries) frame
created-deliveries total ids b req db (err e, db') same = ap (λ d. d.deliveries) same

transition-deliveries :
    (b id : Uuid) (from to : InvoiceState) (now : Time) (db : Db)
    → (transition b id from to now db).1.deliveries ≡ db.deliveries
unfolding transition
transition-deliveries b id from to now db = ground arith

same : {t t' : List WebhookDelivery} → t' ≡ t → UniquePairs t → UniquePairs t'
same e h = subst UniquePairs (sym e) h

redeliver-UniquePairs :
    (now : Time) (b id : Uuid) (db : Db)
    → UniquePairs db.deliveries
    → UniquePairs (redeliver now b id db).1.deliveries
unfolding redeliver
redeliver-UniquePairs now b id db h event_id endpoint_id = ground (
  arith,
  h event_id endpoint_id,
  update-UniquePairs (redeliverable b id) (reset_delivery now) db.deliveries (λ r. (refl, refl)) h
      event_id endpoint_id,
)

-- Every transaction keeps the pairs of event and endpoint unique.
pub Txn-UniquePairs :
    {db db' : Db} → Txn db db' → UniquePairs db.deliveries → UniquePairs db'.deliveries
unfolding Reconciler.lease lease redeliver fan_out
Txn-UniquePairs (claims ids b key token fp seen {db = db} read r) h =
    same (claim-deliveries ids b seen.id key token fp seen.state seen.total_cents.cents db) h
Txn-UniquePairs (finalizes c e now q result {db = db} known r) h =
    same (finalize-deliveries c e now q result db) h
Txn-UniquePairs (polls now db) h = h
Txn-UniquePairs (creates ids b req db) h =
    same (created-deliveries _ ids b req db (create ids b req db) (create-CreatesWith ids b req db))
      h
Txn-UniquePairs (moves b id from to now db legal) h =
    same (transition-deliveries b id from to now db) h
Txn-UniquePairs (adds_customer eq id now b req db) h =
    same (create_customer-Aside eq id now b req db).deliveries_same h
Txn-UniquePairs (adds_key sha256 random id now b name env db) h =
    same (create_key-Aside sha256 random id now b name env db).deliveries_same h
Txn-UniquePairs (revokes now b id db) h = same (revoke-Aside now b id db).deliveries_same h
Txn-UniquePairs (registers hex id secret b req db) h =
    same (register_endpoint-Aside hex id secret b req db).deliveries_same h
Txn-UniquePairs (redelivers now b id db) h = redeliver-UniquePairs now b id db h
Txn-UniquePairs (fans_out new_id now db) h = (fan_out_once new_id new_id now db h).0
Txn-UniquePairs (leases now db) h =
    update-UniquePairs (picked (due_ids now db)) (leased now) db.deliveries (λ r. (refl, refl)) h
Txn-UniquePairs (records limit draw now id n sent db) h =
    let (f, keep, pair, write) = record_sent-Writes limit draw now id n sent in
    subst (λ d. UniquePairs d.deliveries) (sym (write db))
      (update-UniquePairs (delivery_is id) f db.deliveries pair h)
