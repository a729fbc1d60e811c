-- ===== src/PaymentService/PaidOnce.antt =====
-- A whole request among other requests: `pay` as a run of transactions, and an invoice that has been
-- paid.
use invoice_payment_service.Prelude.{
  ℕ, String, ◌≡◌, inl, inr, true, some, List, arith, Bool-cases, Option-cases, Text.is_empty,
  Text.trim,
}
use native.Mathlib.Nat.{le_trans}
use invoice_payment_service.Domain.{Uuid}
use invoice_payment_service.Domain.Invoice.{Invoice}
use invoice_payment_service.Domain.Payment.{PayRequest}
use invoice_payment_service.Table.{find, exists}
use invoice_payment_service.Table.Laws.{count_of_exists}
use invoice_payment_service.Db.{Db}
use invoice_payment_service.InvoiceRepo.{invoice_of}
use invoice_payment_service.PaymentService.Types.{Crates, Psp, Charge, World, Claim}
use invoice_payment_service.PaymentService.Fingerprint.{fingerprint}
use invoice_payment_service.PaymentService.Pay.{
  PayIds, Others, Claimed, claimed, existing, refused, pay_invoice, after_claim, pay,
}
use invoice_payment_service.PaymentService.Guards.{pay_charges_once}
use invoice_payment_service.PaymentService.Interleaving.{
  Reach, here, step, claim_step, finalize_step, succeeded_for, succeeded_is_active,
  Reach-succeeded_count,
}

pub Reach-trans : {db1 db2 db3 : Db} → Reach db1 db2 → Reach db2 db3 → Reach db1 db3
Reach-trans here s = s
Reach-trans (step t r) s = step t (Reach-trans r s)

module _ (c : Crates) (psp : Psp) (ids : PayIds) (others : Others)
    (before : (db : Db) → Reach db (others.before_claim db))
    (during : (db : Db) → Reach db (others.during_charge db)) where
  after_claim-Reach :
      (q : Claim) (card_token : String) (fp : List ℕ) (charges : List Charge) (r : Claimed × Db)
      → Reach r.1 (after_claim c psp ids others q card_token fp charges r).1.db
  unfolding after_claim
  after_claim-Reach q card_token fp charges (refused e, db) = here
  after_claim-Reach q card_token fp charges (existing, db) = here
  after_claim-Reach q card_token fp charges (claimed, db) = Reach-trans (during db) (
      step
        (finalize_step c ids.event_id ids.finalize_now q (psp card_token q.amount_cents q.key)
          (others.during_charge db))
        here)

  pay_invoice-Reach :
      (business_id : Uuid) (key card_token : String) (w : World) (inv : Invoice)
      → Reach w.db (pay_invoice c psp ids others business_id key card_token w inv).1.db
  unfolding pay_invoice
  pay_invoice-Reach business_id key card_token w inv =
      let fp = fingerprint c inv.id card_token inv.total_cents.cents in
      Reach-trans (before w.db) (
        step
          (claim_step ids business_id inv.id key card_token fp inv.state inv.total_cents.cents
            (others.before_claim w.db))
          (after_claim-Reach _ card_token fp w.charges _))

  -- A payment request is a run of transactions: what the others do before its claim, the claim, and
  -- if the provider is called what the others do meanwhile and the second transaction.
  pub pay-Reach :
      (business_id invoice_id : Uuid) (key : String) (req : PayRequest) (w : World)
      → Reach w.db (pay c psp ids others business_id invoice_id key req w).1.db
  unfolding pay
  pay-Reach business_id invoice_id key req w = elim (Bool-cases (is_empty (trim req.card_token))) [
    | inl blank ↦ rw blank here
    | inr token ↦ elim (Option-cases (find (invoice_of business_id invoice_id) w.db.invoices)) [
      | inl missing ↦ rw (token, missing) here
      | inr (inv, found) ↦
          rw (token, found) (pay_invoice-Reach business_id key req.card_token w inv)
    ]
  ]

  -- No request charges for an invoice that has been paid: if an attempt for the invoice has
  -- succeeded, then `pay` does not call the provider, with whatever key and token, and whatever
  -- transactions of other requests come between.
  pub paid_invoice_is_not_charged :
      (business_id invoice_id : Uuid) (key : String) (req : PayRequest) (w : World) (inv : Invoice)
      → find (invoice_of business_id invoice_id) w.db.invoices ≡ some inv
      → exists (succeeded_for inv.id) w.db.attempts ≡ true
      → (pay c psp ids others business_id invoice_id key req w).1.charges ≡ w.charges
  paid_invoice_is_not_charged business_id invoice_id key req w inv found paid_by =
      let active = succeeded_is_active inv.id (others.before_claim w.db) (
        le_trans (count_of_exists (succeeded_for inv.id) w.db.attempts paid_by)
          (Reach-succeeded_count inv.id (before w.db))) in
      elim (pay_charges_once c psp ids others business_id invoice_id key req w) [
        | inl none_made ↦ none_made
        | inr (inv', found', made, new, payable, idle) ↦ absurd (grind arith)
      ]
