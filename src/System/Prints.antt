-- ===== src/System/Prints.antt =====
-- A payment request that is answered leaves its key, with its own fingerprint.
use invoice_payment_service.Prelude.{
  ℕ, String, ◌≡◌, refl, inl, inr, true, false, some, List, [], ◌∷◌, arith, ==_iff, Option-cases,
  Text.trim, Text.is_empty,
}
use invoice_payment_service.Errors.{ok}
use invoice_payment_service.Domain.{Uuid}
use invoice_payment_service.Domain.Invoice.{Invoice}
use invoice_payment_service.Domain.Payment.{PayRequest}
use invoice_payment_service.Table.{find}
use invoice_payment_service.Db.{Db}
use invoice_payment_service.InvoiceRepo.{invoice_of}
use invoice_payment_service.PaymentService.Types.{Crates, Psp, Claim, Charge, World, PayOutcome}
use invoice_payment_service.PaymentService.Statements.{key_of}
use invoice_payment_service.PaymentService.Fingerprint.{fingerprint, bytes_eq}
use invoice_payment_service.PaymentService.Replay.{replay}
use invoice_payment_service.PaymentService.Pay.{
  PayIds, Others, Claimed, claimed, existing, refused, pay_invoice, after_claim, pay,
}
use invoice_payment_service.System.Keys.{
  HasPrint, finalize-HasPrint, Txns-HasPrint, claimed-HasPrint,
}
use invoice_payment_service.System.Payments.{Interleaved}

pub bytes_eq_sound : (xs ys : List ℕ) → bytes_eq xs ys ≡ true → xs ≡ ys
unfolding bytes_eq
bytes_eq_sound [] [] h = refl
bytes_eq_sound [] (y ∷ ys) h = absurd cc
bytes_eq_sound (x ∷ xs) [] h = absurd cc
bytes_eq_sound (x ∷ xs) (y ∷ ys) h =
    let head : x ≡ y = (==_iff x y).0 (ground arith) in
    let tail : xs ≡ ys = bytes_eq_sound xs ys (ground arith) in rw (head, tail) refl

-- A key that is replayed is there, for requests like this one.
replay-HasPrint :
    (c : Crates) (b : Uuid) (key : String) (fp : List ℕ) (i : Uuid) (db : Db) {o : PayOutcome}
    → replay c b key fp i db ≡ ok o
    → HasPrint b key fp db.idempotency_keys
unfolding replay
replay-HasPrint c b key fp i db h = elim (Option-cases (find (key_of b key) db.idempotency_keys)) [
  | inl missing ↦ absurd (ground arith)
  | inr (k, found) ↦ (k, found, bytes_eq_sound k.request_fingerprint fp (ground arith))
]

module _ (c : Crates) (psp : Psp) (ids : PayIds) (others : Others)
    (others_run : Interleaved others) where
  after_claim-HasPrint :
      (q : Claim) (token : String) (fp : List ℕ) (charges : List Charge) (r : Claimed × Db)
      {o : PayOutcome}
      → (r.0 ≡ claimed → HasPrint q.business_id q.key fp r.1.idempotency_keys)
      → (after_claim c psp ids others q token fp charges r).0 ≡ ok o
      → HasPrint q.business_id q.key fp
          (after_claim c psp ids others q token fp charges r).1.db.idempotency_keys
  unfolding after_claim
  after_claim-HasPrint q token fp charges (refused e, db) k h = absurd cc
  after_claim-HasPrint q token fp charges (existing, db) k h =
      replay-HasPrint c q.business_id q.key fp q.invoice_id db h
  after_claim-HasPrint q token fp charges (claimed, db) k h =
      finalize-HasPrint q.business_id q.key fp c ids.event_id ids.finalize_now q
        (psp token q.amount_cents q.key) (others.during_charge db)
        (Txns-HasPrint q.business_id q.key fp (others_run.during db) (k refl))

  -- A request that is answered leaves its key, whoever has claimed it.
  pub answered-HasPrint :
      (b id : Uuid) (key : String) (req : PayRequest) (w : World) (inv : Invoice) {o : PayOutcome}
      → is_empty (trim req.card_token) ≡ false
      → find (invoice_of b id) w.db.invoices ≡ some inv
      → (pay c psp ids others b id key req w).0 ≡ ok o
      → HasPrint b key
          (fingerprint c inv.id req.card_token inv.total_cents.cents)
          (pay c psp ids others b id key req w).1.db.idempotency_keys
  unfolding pay pay_invoice
  answered-HasPrint b id key req w inv token found =
      rw (token, found)
        (after_claim-HasPrint _ req.card_token _ w.charges _ (
          claimed-HasPrint b key (fingerprint c inv.id req.card_token inv.total_cents.cents) ids
            inv.id req.card_token inv.state inv.total_cents.cents (others.before_claim w.db)))
