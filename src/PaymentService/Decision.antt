-- ===== src/PaymentService/Decision.antt =====
-- When a payment request calls the provider (`pay` of
-- crates/invoice-service/src/services/payment_service.rs), and what it leaves when it does not.
use invoice_payment_service.Prelude.{
  ℕ, String, ◌≡◌, refl, sym, ◌∙◌, ap, ◌⊎◌, inl, inr, true, false, some, List, ◌∷◌, arith, ◌==◌,
  Bool-cases, Option-cases, Text.is_empty, Text.trim,
}
use mathlib.Core.Path.{subst}
use invoice_payment_service.Prelude.Int.{pos, ltb_ℤ}
use invoice_payment_service.Errors.{AppError, not_found, Result, err}
use invoice_payment_service.Domain.{Uuid}
use invoice_payment_service.Domain.Invoice.{Invoice, state_eq, open_}
use invoice_payment_service.Domain.Payment.{IdempotencyKey, PayRequest}
use invoice_payment_service.Table.{find, exists}
use invoice_payment_service.Db.{Db}
use invoice_payment_service.InvoiceRepo.{invoice_of}
use invoice_payment_service.PaymentService.Types.{Crates, Psp, World, PayOutcome}
use invoice_payment_service.PaymentService.Statements.{
  key_of, attempt_is, active_for, insert_key, insert_attempt, link_attempt,
}
use invoice_payment_service.PaymentService.Pay.{
  PayIds, Others, claimed, claim, pay_invoice, after_claim, pay, blank_token,
}
use invoice_payment_service.PaymentService.Fingerprint.{fingerprint}
use invoice_payment_service.PaymentService.Outcomes.{claim-cases, claimed_db}

-- What a request needs to be charged, for the invoice as it was read and the database at the time of
-- the first transaction.
pub record IsFree (ids : PayIds) (business_id : Uuid) (key : String) (inv : Invoice) (db : Db)
    : Type 0 where
  pub payable : state_eq inv.state open_ ≡ true
  pub not_negative : ltb_ℤ inv.total_cents.cents (pos 0) ≡ false
  pub new_key : exists (key_of business_id key) db.idempotency_keys ≡ false
  pub idle : exists (active_for inv.id) db.attempts ≡ false
  pub new_key_id : exists (λ (k : IdempotencyKey). k.id == ids.key_id) db.idempotency_keys ≡ false
  pub new_attempt_id : exists (attempt_is ids.attempt_id) db.attempts ≡ false

pub record IsChargeable (ids : PayIds) (others : Others) (business_id invoice_id : Uuid)
    (key : String) (req : PayRequest) (w : World) : Type 0 where
  pub token : is_empty (trim req.card_token) ≡ false
  pub invoice : Invoice
  pub found : find (invoice_of business_id invoice_id) w.db.invoices ≡ some invoice
  pub free : IsFree ids business_id key invoice (others.before_claim w.db)

module _ (ids : PayIds) (business_id : Uuid) (key token : String) (fp : List ℕ) (inv : Invoice)
    (db : Db) where
  IsFree-claimed :
      IsFree ids business_id key inv db
      → claim ids business_id inv.id key token fp inv.state inv.total_cents.cents db
        ≡ (claimed, claimed_db ids business_id inv.id key token fp inv.total_cents.cents db)
  unfolding claim insert_key insert_attempt link_attempt
  IsFree-claimed h =
      ground (arith, h.payable, h.not_negative, h.new_key, h.idle, h.new_key_id, h.new_attempt_id)

  claimed-IsFree :
      (claim ids business_id inv.id key token fp inv.state inv.total_cents.cents db).0 ≡ claimed
      → IsFree ids business_id key inv db
  unfolding claim insert_key insert_attempt link_attempt
  claimed-IsFree h = record {
    payable = ground arith;
    not_negative = ground arith;
    new_key = ground arith;
    idle = ground arith;
    new_key_id = ground arith;
    new_attempt_id = ground arith;
  }

-- Nothing done by the request itself: the world is as it was, or as the others have left it before the
-- first transaction; and if the key was not known then, the answer is an error.
abbrev pub Uncharged : Others → Uuid → String → World → Result PayOutcome AppError × World → Type 0
Uncharged others business_id key w r =
    ((r.1 ≡ w) ⊎ (r.1 ≡ record { db = others.before_claim w.db; charges = w.charges }))
    × ((exists (key_of business_id key) (others.before_claim w.db).idempotency_keys ≡ true)
        ⊎ ((e : AppError) × (r.0 ≡ err e)))

abbrev pub IsDecided :
    Crates → Psp → PayIds → Others → Uuid → Uuid → String → PayRequest → World → Type 0
IsDecided c psp ids others business_id invoice_id key req w =
    let r = pay c psp ids others business_id invoice_id key req w in
    ((h : IsChargeable ids others business_id invoice_id key req w) × (r.1.charges ≡ (
        record {
          card_token = req.card_token;
          amount_cents = h.invoice.total_cents.cents;
          idempotency_key = key;
        }
        ∷ w.charges)))
    ⊎ ((¬ (IsChargeable ids others business_id invoice_id key req w))
        × Uncharged others business_id key w r)

some_injective : {A : Type 0} {x y : A} → some x ≡ some y → x ≡ y
some_injective e = cc

module _ (c : Crates) (psp : Psp) (ids : PayIds) (others : Others) (business_id invoice_id : Uuid)
    (key : String) (req : PayRequest) (w : World) where
  module _ (inv : Invoice) where
    abbrev answered : Result PayOutcome AppError × World
    answered = pay_invoice c psp ids others business_id key req.card_token w inv

    abbrev fp : List ℕ
    fp = fingerprint c inv.id req.card_token inv.total_cents.cents

    -- Behind the read of the invoice: the call, or a refusal or a known key.
    pay_invoice_decides :
        (IsFree ids business_id key inv (others.before_claim w.db)
          × (answered.1.charges ≡ (
              record {
                card_token = req.card_token;
                amount_cents = inv.total_cents.cents;
                idempotency_key = key;
              }
              ∷ w.charges)))
        ⊎ ((¬ (IsFree ids business_id key inv (others.before_claim w.db)))
            × Uncharged others business_id key w answered)
    unfolding pay_invoice after_claim
    pay_invoice_decides =
        let seen = others.before_claim w.db in
        elim (claim-cases ids business_id inv.id key req.card_token fp inv.total_cents.cents seen
          inv.state) [
            | inl (e, p) ↦ inr (
              (λ h.
                  let q = IsFree-claimed ids business_id key req.card_token fp inv seen h in
                  absurd (ground (arith, p, q))),
              (inr (ground arith), inr (e, ground arith)),
            )
            | inr (inl (old, p)) ↦
                inr ((λ h. absurd (ground (arith, h.new_key))), (inr (ground arith), inl old))
            | inr (inr (new, payable, idle, p)) ↦ inl (
              claimed-IsFree ids business_id key req.card_token fp inv seen (ap (λ r. r.0) p),
              ground arith,
            )
          ]

  -- Every request is decided in one of two ways. Either its card token is not blank, the invoice is found
  -- and was open with a total that is not negative when it was read, and at the time of the first
  -- transaction the key was new, the invoice had no pending or succeeded attempt and the drawn ids were
  -- new: then the provider is called, once, with the token, that total and the key. Or one of these
  -- does not hold: then the provider is not called and the request writes nothing, its key included;
  -- and unless the key was known the answer is an error.
  pub pay_decides : IsDecided c psp ids others business_id invoice_id key req w
  unfolding pay
  pay_decides = elim (Bool-cases (is_empty (trim req.card_token))) [
    | inl blank ↦ inr (
      (λ h. absurd (ground (arith, h.token))),
      (inl (rw blank refl), inr (blank_token, rw blank refl)),
    )
    | inr token ↦ elim (Option-cases (find (invoice_of business_id invoice_id) w.db.invoices)) [
      | inl missing ↦ inr (
        (λ h. absurd (ground (arith, h.found))),
        (
          inl (rw (token, missing) refl),
          inr (not_found "invoice not found", rw (token, missing) refl),
        ),
      )
      | inr (inv, found) ↦
          let same : pay c psp ids others business_id invoice_id key req w ≡ answered inv =
            rw (token, found) refl in
          elim (pay_invoice_decides inv) [
            | inl (free, made) ↦ inl (
              record { token = token; invoice = inv; found = found; free = free },
              ap (λ r. r.1.charges) same ∙ made,
            )
            | inr (refused, nothing) ↦ inr (
              (λ h.
                  let own : inv ≡ h.invoice = some_injective (sym found ∙ h.found) in
                  refused (
                    subst (λ i. IsFree ids business_id key i (others.before_claim w.db)) (sym own)
                      h.free)),
              subst (Uncharged others business_id key w) (sym same) nothing,
            )
          ]
    ]
  ]
