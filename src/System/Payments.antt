-- ===== src/System/Payments.antt =====
-- A payment request (`pay` of crates/invoice-service/src/services/payment_service.rs) as a sequence of
-- transactions, its own and those of the requests and tasks that come in between.
use mathlib.Core.Path.{subst}
use invoice_payment_service.Prelude.{
  ℕ, String, ◌≡◌, refl, ◌∙◌, Option, some, List, arith, Bool-cases, Option-cases, inl, inr, ==_self,
  Text.is_empty, Text.trim,
}
use invoice_payment_service.Prelude.Int.{ℤ}
use invoice_payment_service.Domain.{Uuid}
use invoice_payment_service.Domain.Invoice.{Invoice, InvoiceState}
use invoice_payment_service.Domain.Payment.{PayRequest}
use invoice_payment_service.Table.{find}
use invoice_payment_service.Table.Laws.{find-insert, exists_of_find}
use invoice_payment_service.Db.{Db}
use invoice_payment_service.InvoiceRepo.{invoice_of}
use invoice_payment_service.PaymentService.Types.{Crates, Psp, Charge, World, Claim}
use invoice_payment_service.PaymentService.Statements.{attempt_is}
use invoice_payment_service.PaymentService.Fingerprint.{fingerprint}
use invoice_payment_service.PaymentService.Pay.{
  PayIds, Others, Claimed, claimed, existing, refused, claim, pay_invoice, after_claim, pay,
}
use invoice_payment_service.PaymentService.Outcomes.{claim-cases, claim_row}
use invoice_payment_service.Tenants.Payments.{claimed_is_new}
use invoice_payment_service.Routes.{header_key, pay_route}
use invoice_payment_service.System.{claims, finalizes, Txns, here, later, Knows}

-- What the others do are transactions, too.
pub record Interleaved (others : Others) : Type 0 where
  pub before : (db : Db) → Txns db (others.before_claim db)
  pub during : (db : Db) → Txns db (others.during_charge db)

pub Txns-trans : {db1 db2 db3 : Db} → Txns db1 db2 → Txns db2 db3 → Txns db1 db3
Txns-trans r here = r
Txns-trans r (later s t) = later (Txns-trans r s) t

-- What a claim has written.
claim-Knows :
    (ids : PayIds) (b i : Uuid) (key token : String) (fp : List ℕ) (state : InvoiceState)
    (amount : ℤ) (db : Db)
    → (claim ids b i key token fp state amount db).0 ≡ claimed
    → Knows
        (record {
          business_id = b;
          invoice_id = i;
          attempt_id = ids.attempt_id;
          key = key;
          amount_cents = amount;
        })
        (claim ids b i key token fp state amount db).1
claim-Knows ids b i key token fp state amount db h =
    elim (claim-cases ids b i key token fp amount db state) [
      | inl (e, p) ↦ absurd (ground arith)
      | inr (inl (old, p)) ↦ absurd (ground arith)
      | inr (inr (new, payable, idle, p)) ↦
          let row = claim_row ids b i key token fp amount db in
          let fresh = claimed_is_new ids b i key token fp amount db state h in
          (
            row,
            rw p (
                find-insert (attempt_is ids.attempt_id) row db.attempts
                ∙ rw (fresh, ==_self ids.attempt_id) refl),
            refl,
            refl,
          )
    ]

module _ (c : Crates) (psp : Psp) (ids : PayIds) (others : Others)
    (others_run : Interleaved others) where
  after_claim-Txns :
      (q : Claim) (token : String) (fp : List ℕ) (charges : List Charge) (db : Db)
      (r : Claimed × Db)
      → Txns db r.1
      → (r.0 ≡ claimed → Knows q r.1)
      → Txns db (after_claim c psp ids others q token fp charges r).1.db
  unfolding after_claim
  after_claim-Txns q token fp charges db (refused e, db') h k = h
  after_claim-Txns q token fp charges db (existing, db') h k = h
  after_claim-Txns q token fp charges db (claimed, db') h k =
      let meanwhile = others_run.during db' in
      later (Txns-trans h meanwhile) (
        finalizes c ids.event_id ids.finalize_now q (psp token q.amount_cents q.key) (k refl)
          meanwhile)

  pay_invoice-Txns :
      (b : Uuid) (key token : String) (w : World) (inv : Invoice)
      → find (invoice_of b inv.id) w.db.invoices ≡ some inv
      → Txns w.db (pay_invoice c psp ids others b key token w inv).1.db
  unfolding pay_invoice
  pay_invoice-Txns b key token w inv found =
      let fp = fingerprint c inv.id token inv.total_cents.cents in
      let first = others_run.before w.db in
      after_claim-Txns _ token fp w.charges w.db _
        (later first (claims ids b key token fp inv found first))
        (claim-Knows ids b inv.id key token fp inv.state inv.total_cents.cents
          (others.before_claim w.db))

  found_by_its_id :
      (b id : Uuid) (t : List Invoice) (inv : Invoice)
      → find (invoice_of b id) t ≡ some inv
      → find (invoice_of b inv.id) t ≡ some inv
  found_by_its_id b id t inv found =
      let same : id ≡ inv.id = ground (arith, exists_of_find (invoice_of b id) inv t found) in
      subst (λ i. find (invoice_of b i) t ≡ some inv) same found

  pub pay-Txns :
      (b id : Uuid) (key : String) (req : PayRequest) (w : World)
      → Txns w.db (pay c psp ids others b id key req w).1.db
  unfolding pay
  pay-Txns b id key req w = elim (Bool-cases (is_empty (trim req.card_token))) [
    | inl blank ↦ rw blank here
    | inr token ↦ elim (Option-cases (find (invoice_of b id) w.db.invoices)) [
      | inl missing ↦ rw (token, missing) here
      | inr (inv, found) ↦
          rw (token, found)
            (pay_invoice-Txns b key req.card_token w inv
              (found_by_its_id b id w.db.invoices inv found))
    ]
  ]

  pub pay_route-Txns :
      (b id : Uuid) (header : Option String) (req : PayRequest) (w : World)
      → Txns w.db (pay_route c psp ids others b id header req w).1.db
  unfolding pay_route
  pay_route-Txns b id header req w = elim (Option-cases (header_key header)) [
    | inl missing ↦ rw (missing, pay_route) here
    | inr (key, given) ↦ rw (given, pay_route) (pay-Txns b id key req w)
  ]
