-- ===== src/Tenants/Payments.antt =====
-- A payment leaves the rows of other businesses alone.
use invoice_payment_service.Prelude.{
  ℕ, ◌≡◌, refl, sym, ◌∙◌, ==_self, String, false, not, ◌&&◌, some, List, arith, ap, Bool-cases,
  Option-cases, inl, inr, Text.is_empty, Text.trim,
}
use mathlib.Core.Path.{subst}
use invoice_payment_service.Prelude.Int.{ℤ}
use invoice_payment_service.Domain.{Uuid}
use invoice_payment_service.Domain.Invoice.{Invoice, InvoiceState}
use invoice_payment_service.Domain.Payment.{PayRequest}
use invoice_payment_service.Table.{find, exists, insert}
use invoice_payment_service.Table.Laws.{
  where_-insert, where_-update_apart, not_exists_never, exists-insert, exists_of_found,
  exists_of_find, only_one, not_exists_of_implied,
}
use invoice_payment_service.Db.{Db}
use invoice_payment_service.InvoiceRepo.{invoice_is, invoice_of}
use invoice_payment_service.PaymentService.Types.{Crates, Psp, World, Claim}
use invoice_payment_service.PaymentService.Statements.{
  attempt_is, key_of, linked_key, insert_key, insert_attempt,
}
use invoice_payment_service.PaymentService.Fingerprint.{fingerprint}
use invoice_payment_service.PaymentService.Pay.{
  PayIds, Claimed, claimed, claim, pay_invoice, after_claim, pay, nobody,
}
use invoice_payment_service.PaymentService.Outcomes.{claim-cases, claimed_db, claim_row, claim_key}
use invoice_payment_service.Tenants.{
  SameForOthers, SameForOthers-refl, InvoiceIdsDiffer, other_invoice, other_attempt,
  other_idempotency_key,
}
use invoice_payment_service.Tenants.Finalizing.{SameForOthers-trans, finalize-SameForOthers}

module _ (ids : PayIds) (b invoice_id : Uuid) (key card_token : String) (fp : List ℕ) (amount : ℤ)
    (db : Db) where
  -- A claim is written only for a new attempt id.
  pub claimed_is_new :
      (state : InvoiceState)
      → (claim ids b invoice_id key card_token fp state amount db).0 ≡ claimed
      → exists (attempt_is ids.attempt_id) db.attempts ≡ false
  unfolding claim insert_key insert_attempt
  claimed_is_new state h = elim (Bool-cases (exists (attempt_is ids.attempt_id) db.attempts)) [
    | inr free ↦ free
    | inl taken ↦ absurd (ground arith)
  ]

  abbrev after : Db
  after = claimed_db ids b invoice_id key card_token fp amount db

  claimed-SameForOthers : SameForOthers b db after
  claimed-SameForOthers = record {
    keys_same = refl;
    customers_same = refl;
    invoices_same = refl;
    attempts_same =
        where_-insert (other_attempt b) (claim_row ids b invoice_id key card_token fp amount db)
          db.attempts
        ∙ rw (==_self b);
    idempotency_keys_same =
        where_-update_apart (other_idempotency_key b) (key_of b key) (linked_key ids.attempt_id)
          (insert (claim_key ids b invoice_id key card_token fp amount db) db.idempotency_keys)
          (λ r. refl)
          (not_exists_never (λ r. key_of b key r && other_idempotency_key b r)
            (insert (claim_key ids b invoice_id key card_token fp amount db) db.idempotency_keys)
            (λ r. ground arith))
        ∙ (where_-insert (other_idempotency_key b)
              (claim_key ids b invoice_id key card_token fp amount db) db.idempotency_keys
            ∙ rw (==_self b));
    endpoints_same = refl;
    events_same = refl;
    deliveries_same = refl;
  }

  -- The new attempt is the only one with its id, and it is the business's own.
  own_attempt_after :
      exists (attempt_is ids.attempt_id) db.attempts ≡ false
      → exists (λ r. attempt_is ids.attempt_id r && other_attempt b r) after.attempts ≡ false
  own_attempt_after free =
      exists-insert (λ r. attempt_is ids.attempt_id r && other_attempt b r)
        (claim_row ids b invoice_id key card_token fp amount db) db.attempts
      ∙ rw (
        not_exists_of_implied (λ r. attempt_is ids.attempt_id r && other_attempt b r)
            (attempt_is ids.attempt_id) db.attempts (λ r. ground arith) free,
        ==_self b,
        ==_self ids.attempt_id,
      )

-- The invoice that the business finds is the only one with its id.
own_invoice_found :
    (b id : Uuid) (db : Db) (inv : Invoice)
    → InvoiceIdsDiffer db
    → find (invoice_of b id) db.invoices ≡ some inv
    → exists (λ r. invoice_is inv.id r && other_invoice b r) db.invoices ≡ false
own_invoice_found b id db inv one found =
    only_one (other_invoice b) (invoice_is inv.id) db.invoices (one inv.id) (
      exists_of_found (invoice_of b id) (λ r. invoice_is inv.id r && not (other_invoice b r)) inv
        db.invoices found
        (ground (arith, exists_of_find (invoice_of b id) inv db.invoices found, ==_self inv.id)))

module _ (c : Crates) (psp : Psp) (ids : PayIds) (b : Uuid) (key card_token : String) (w : World)
    (inv : Invoice)
    (own : exists (λ r. invoice_is inv.id r && other_invoice b r) w.db.invoices ≡ false) where
  abbrev print : List ℕ
  print = fingerprint c inv.id card_token inv.total_cents.cents

  abbrev the_claim : Claim
  the_claim = record {
    business_id = b;
    invoice_id = inv.id;
    attempt_id = ids.attempt_id;
    key = key;
    amount_cents = inv.total_cents.cents;
  }

  -- The whole request, by how the first transaction ends.
  abbrev Kept : Claimed × Db → Type 0
  Kept r =
      SameForOthers b w.db
        (after_claim c psp ids nobody the_claim card_token print w.charges r).1.db

  claimed-Kept :
      exists (attempt_is ids.attempt_id) w.db.attempts ≡ false
      → Kept (claimed, after ids b inv.id key card_token print inv.total_cents.cents w.db)
  unfolding after_claim
  claimed-Kept free =
      SameForOthers-trans b
        (claimed-SameForOthers ids b inv.id key card_token print inv.total_cents.cents w.db)
        (finalize-SameForOthers c ids.event_id ids.finalize_now the_claim
          (after ids b inv.id key card_token print inv.total_cents.cents w.db)
          (own_attempt_after ids b inv.id key card_token print inv.total_cents.cents w.db free) own
          (psp card_token inv.total_cents.cents key))

  pay_invoice-SameForOthers :
      SameForOthers b w.db (pay_invoice c psp ids nobody b key card_token w inv).1.db
  unfolding pay_invoice after_claim
  pay_invoice-SameForOthers =
      elim (claim-cases ids b inv.id key card_token print inv.total_cents.cents w.db inv.state) [
        | inl (e, p) ↦ subst Kept (sym p) (SameForOthers-refl b w.db)
        | inr (inl (old, p)) ↦ subst Kept (sym p) (SameForOthers-refl b w.db)
        | inr (inr (new, payable, idle, p)) ↦ subst Kept (sym p) (
            claimed-Kept (
              claimed_is_new ids b inv.id key card_token print inv.total_cents.cents w.db inv.state
                (ap (λ r. r.0) p)))
      ]

-- A payment leaves the rows of other businesses alone, if the ids of invoices differ.
pub pay-SameForOthers :
    (c : Crates) (psp : Psp) (ids : PayIds) (b invoice_id : Uuid) (key : String) (req : PayRequest)
    (w : World)
    → InvoiceIdsDiffer w.db
    → SameForOthers b w.db (pay c psp ids nobody b invoice_id key req w).1.db
unfolding pay
pay-SameForOthers c psp ids b invoice_id key req w one =
    elim (Bool-cases (is_empty (trim req.card_token))) [
      | inl blank ↦ rw blank (SameForOthers-refl b w.db)
      | inr token ↦ elim (Option-cases (find (invoice_of b invoice_id) w.db.invoices)) [
        | inl missing ↦ rw (token, missing) (SameForOthers-refl b w.db)
        | inr (inv, found) ↦
            rw (token, found)
              (pay_invoice-SameForOthers c psp ids b key req.card_token w inv
                (own_invoice_found b invoice_id w.db inv one found))
      ]
    ]
