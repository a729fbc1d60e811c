-- ===== src/PaymentService/Guards.antt =====
-- How often a payment request calls the provider, and what an invoice that is not open does to it.
use invoice_payment_service.Prelude.{
  ℕ, String, ◌≡◌, refl, sym, ◌⊎◌, inl, inr, true, false, some, List, ◌∷◌, arith, ◌==◌, Bool-cases,
  Option-cases, Text.is_empty, Text.trim,
}
use mathlib.Core.Path.{subst}
use invoice_payment_service.Errors.{err}
use invoice_payment_service.Domain.{Uuid}
use invoice_payment_service.Domain.Invoice.{Invoice, state_eq, open_}
use invoice_payment_service.Domain.Payment.{IdempotencyKey, PayRequest}
use invoice_payment_service.Table.{find, exists}
use invoice_payment_service.Db.{Db}
use invoice_payment_service.InvoiceRepo.{invoice_of}
use invoice_payment_service.PaymentService.Types.{Crates, Psp, Charge, World, Claim}
use invoice_payment_service.PaymentService.Statements.{key_of, active_for, insert_key}
use invoice_payment_service.PaymentService.Fingerprint.{fingerprint}
use invoice_payment_service.PaymentService.Pay.{
  PayIds, Others, claimed, claim, pay_invoice, after_claim, pay, not_payable,
}
use invoice_payment_service.PaymentService.Outcomes.{claim-cases, claimed_db}

module _ (c : Crates) (psp : Psp) (ids : PayIds) (others : Others) (business_id : Uuid)
    (key card_token : String) (w : World) (inv : Invoice) where
  abbrev seen : Db
  seen = others.before_claim w.db

  abbrev stopped : World
  stopped = record { db = seen; charges = w.charges }

  abbrev print : List ℕ
  print = fingerprint c inv.id card_token inv.total_cents.cents

  module _ (new_key : exists (key_of business_id key) seen.idempotency_keys ≡ false)
      (new_key_id : exists (λ (k : IdempotencyKey). k.id == ids.key_id) seen.idempotency_keys
        ≡ false) where
    -- With a new key and a new id for it, an invoice that was not open when it was read is refused as not payable.
    -- Nothing is written, the key included, and the provider is not called.
    pub not_open_refused :
        state_eq inv.state open_ ≡ false
        → pay_invoice c psp ids others business_id key card_token w inv
          ≡ (err (not_payable inv.state), stopped)
    unfolding pay_invoice after_claim claim insert_key
    not_open_refused closed = ground arith

  abbrev the_call : Charge
  the_call = record {
    card_token = card_token;
    amount_cents = inv.total_cents.cents;
    idempotency_key = key;
  }

  -- What a request may do to the list of calls.
  abbrev ChargesOnce : List Charge → Type 0
  ChargesOnce charges =
      (charges ≡ w.charges)
      ⊎ ((charges ≡ (the_call ∷ w.charges))
          × (exists (key_of business_id key) seen.idempotency_keys ≡ false)
          × (state_eq inv.state open_ ≡ true)
          × (exists (active_for inv.id) seen.attempts ≡ false))

  claimed-ChargesOnce :
      (q : Claim) (db : Db)
      → exists (key_of business_id key) seen.idempotency_keys ≡ false
      → state_eq inv.state open_ ≡ true
      → exists (active_for inv.id) seen.attempts ≡ false
      → q.amount_cents ≡ inv.total_cents.cents
      → q.key ≡ key
      → ChargesOnce
          (after_claim c psp ids others q card_token print w.charges (claimed, db)).1.charges
  unfolding after_claim
  claimed-ChargesOnce q db new payable idle amount same =
      inr (rw (amount, same) refl, new, payable, idle)

  abbrev the_claim : Claim
  the_claim = record {
    business_id = business_id;
    invoice_id = inv.id;
    attempt_id = ids.attempt_id;
    key = key;
    amount_cents = inv.total_cents.cents;
  }

  pay_invoice-ChargesOnce :
      ChargesOnce (pay_invoice c psp ids others business_id key card_token w inv).1.charges
  unfolding pay_invoice after_claim
  pay_invoice-ChargesOnce =
      elim (claim-cases ids business_id inv.id key card_token print inv.total_cents.cents seen
        inv.state) [
          | inl (e, p) ↦ inl (ground arith)
          | inr (inl (old, p)) ↦ inl (ground arith)
          | inr (inr (new, payable, idle, p)) ↦
              subst
                (λ r.
                  ChargesOnce
                    (after_claim c psp ids others the_claim card_token print w.charges r).1.charges)
                (sym p)
                (claimed-ChargesOnce the_claim
                  (claimed_db ids business_id inv.id key card_token print inv.total_cents.cents
                    seen)
                  new payable idle refl refl)
        ]

-- One call of the provider at most, and only with a claim: the list of calls is as it was, or has one
-- call more, of an open invoice with a new key and no active attempt.
abbrev pub ChargedOnce :
    Crates → Psp → PayIds → Others → Uuid → Uuid → String → PayRequest → World → Type 0
ChargedOnce c psp ids others business_id invoice_id key req w =
    ((pay c psp ids others business_id invoice_id key req w).1.charges ≡ w.charges)
    ⊎ ((inv : Invoice) × (find (invoice_of business_id invoice_id) w.db.invoices ≡ some inv)
        × ((pay c psp ids others business_id invoice_id key req w).1.charges
            ≡ (the_call c psp ids others business_id key req.card_token w inv ∷ w.charges))
        × (exists (key_of business_id key) (others.before_claim w.db).idempotency_keys ≡ false)
        × (state_eq inv.state open_ ≡ true)
        × (exists (active_for inv.id) (others.before_claim w.db).attempts ≡ false))

-- A request calls the provider once at most: either the list of calls is as it was, or there is one
-- call more, with the request's token and key and the invoice's total, and then the invoice was
-- found and was open when it was read, and at the time of the first transaction the key was new
-- and the invoice had no pending or succeeded attempt.
pub pay_charges_once :
    (c : Crates) (psp : Psp) (ids : PayIds) (others : Others) (business_id invoice_id : Uuid)
    (key : String) (req : PayRequest) (w : World)
    → ChargedOnce c psp ids others business_id invoice_id key req w
unfolding pay
pay_charges_once c psp ids others business_id invoice_id key req w =
    elim (Bool-cases (is_empty (trim req.card_token))) [
      | inl blank ↦ inl (rw blank refl)
      | inr token ↦ elim (Option-cases (find (invoice_of business_id invoice_id) w.db.invoices)) [
        | inl missing ↦ inl (rw (token, missing) refl)
        | inr (inv, found) ↦
            rw (token, found)
              (elim (pay_invoice-ChargesOnce c psp ids others business_id key req.card_token w
                inv) [
                  | inl none_made ↦ inl none_made
                  | inr (made, new, payable, idle) ↦ inr (inv, refl, made, new, payable, idle)
                ])
      ]
    ]
