-- ===== src/PaymentService/Pay.antt =====
-- The payment request (`pay` of crates/invoice-service/src/services/payment_service.rs).
use invoice_payment_service.Prelude.{
  ℕ, String, not, none, some, List, [], ◌∷◌, ◌&&◌, ◌==◌, if◌then◌else◌, Text.trim, Text.is_empty,
  Text.concat,
}
use invoice_payment_service.Prelude.Int.{ℤ}
use invoice_payment_service.Errors.{
  field_error, AppError, not_found, validation, conflict, from_sqlx, is_unique_violation, SqlxError,
  Result, ok, err,
}
use invoice_payment_service.Domain.{Uuid, Time}
use invoice_payment_service.Domain.Invoice.{InvoiceState, open_, state_eq, as_str, Invoice}
use invoice_payment_service.Domain.Payment.{PaymentAttempt, PayRequest, PaymentAttemptResponse}
use invoice_payment_service.Table.{find}
use invoice_payment_service.Db.{Db}
use invoice_payment_service.InvoiceRepo.{invoice_is, invoice_of}
use invoice_payment_service.PaymentService.Statements.{
  new_attempt, insert_key, insert_attempt, link_attempt,
}
use invoice_payment_service.PaymentService.Types.{Crates, Psp, Charge, World, PayOutcome, Claim}
use invoice_payment_service.PaymentService.Fingerprint.{fingerprint}
use invoice_payment_service.PaymentService.Replay.{replay}
use invoice_payment_service.PaymentService.Finalize.{finalize}

abbrev pub not_payable : InvoiceState → AppError
not_payable s =
    conflict "invoice_not_payable"
      (concat ("invoice is in state '" ∷ as_str s ∷ "', not 'open'" ∷ []))

abbrev pub payment_in_progress : AppError
payment_in_progress =
    conflict "payment_in_progress" "another payment attempt is already in progress for this invoice"

-- How the first transaction ends.
pub data Claimed : Type 0 where
  claimed : Claimed
  existing : Claimed
  refused : AppError → Claimed

-- What a request takes from outside: the ids of `new_id`, and `now()` of the two transactions.
pub record PayIds : Type 0 where
  pub key_id : Uuid
  pub attempt_id : Uuid
  pub event_id : Uuid
  pub now : Time
  pub finalize_now : Time

-- The error for an attempt that could not be inserted.
abbrev pub attempt_refused : SqlxError → AppError
attempt_refused e = if is_unique_violation e then payment_in_progress else from_sqlx e

-- The first transaction behind the claim of a fresh key, on the database `db1` that has the key;
-- what is refused is rolled back to `db`.
unfoldable claim_attempt :
    PayIds → Uuid → Uuid → String → String → InvoiceState → ℤ → (db db1 : Db) → Claimed × Db
claim_attempt ids business_id invoice_id key card_token state amount_cents db db1 =
    if not (state_eq state open_)
    then (refused (not_payable state), db)
    else (let attempt =
          new_attempt ids.attempt_id invoice_id business_id key amount_cents card_token ids.now in
        let (r, db2) = insert_attempt attempt db1 in
        elim r [
          | err e ↦ (refused (attempt_refused e), db)
          | ok u ↦ (claimed, link_attempt ids.attempt_id business_id key db2)
        ])

-- The first transaction: the key, the state check, the attempt, the link.
unfoldable pub claim :
    PayIds → Uuid → Uuid → String → String → List ℕ → InvoiceState → ℤ → Db → Claimed × Db
unfolding claim_attempt
claim ids business_id invoice_id key card_token fp state amount_cents db =
    let (r, db1) = insert_key ids.key_id business_id key fp ids.now db in
    elim r [
      | err e ↦ (refused (from_sqlx e), db)
      | ok none ↦ (existing, db)
      | ok (some fresh) ↦
          claim_attempt ids business_id invoice_id key card_token state amount_cents db db1
    ]

-- What other requests and tasks do to the database between the read of the invoice and the first
-- transaction, and during the call of the provider.
pub record Others : Type 0 where
  pub before_claim : Db → Db
  pub during_charge : Db → Db

abbrev pub nobody : Others
nobody = record { before_claim = λ db. db; during_charge = λ db. db }

-- `pay` behind the first transaction.
unfoldable pub after_claim :
    Crates
    → Psp
    → PayIds
    → Others
    → Claim
    → String
    → List ℕ
    → List Charge
    → Claimed × Db
    → Result PayOutcome AppError × World
after_claim c psp ids others q card_token fp charges (refused e, db) =
    (err e, record { db = db; charges = charges })
after_claim c psp ids others q card_token fp charges (existing, db) =
    (replay c q.business_id q.key fp q.invoice_id db, record { db = db; charges = charges })
after_claim c psp ids others q card_token fp charges (claimed, db) =
    let call : Charge = record {
      card_token = card_token;
      amount_cents = q.amount_cents;
      idempotency_key = q.key;
    } in
    let (r, db') =
      finalize c ids.event_id ids.finalize_now q (psp card_token q.amount_cents q.key)
        (others.during_charge db) in
    (r, record { db = db'; charges = call ∷ charges })

-- `pay` behind the read of the invoice.
unfoldable pub pay_invoice :
    Crates
    → Psp
    → PayIds
    → Others
    → Uuid
    → String
    → String
    → World
    → Invoice
    → Result PayOutcome AppError × World
unfolding after_claim claim
pay_invoice c psp ids others business_id key card_token w inv =
    let amount = inv.total_cents.cents in
    let fp = fingerprint c inv.id card_token amount in
    let q : Claim = record {
      business_id = business_id;
      invoice_id = inv.id;
      attempt_id = ids.attempt_id;
      key = key;
      amount_cents = amount;
    } in
    after_claim c psp ids others q card_token fp w.charges
      (claim ids business_id inv.id key card_token fp inv.state amount (others.before_claim w.db))

abbrev pub blank_token : AppError
blank_token = validation (field_error "card_token" "must not be empty" ∷ [])

-- `pay`
unfoldable pub pay :
    Crates
    → Psp
    → PayIds
    → Others
    → Uuid
    → Uuid
    → String
    → PayRequest
    → World
    → Result PayOutcome AppError × World
unfolding pay_invoice
pay c psp ids others business_id invoice_id key req w =
    if is_empty (trim req.card_token)
    then (err blank_token, w)
    else elim (find (invoice_of business_id invoice_id) w.db.invoices) [
      | none ↦ (err (not_found "invoice not found"), w)
      | some inv ↦ pay_invoice c psp ids others business_id key req.card_token w inv
    ]

-- `get_attempt`
unfoldable pub get_attempt : Uuid → Uuid → Uuid → Db → Result PaymentAttemptResponse AppError
get_attempt business_id invoice_id attempt_id db =
    elim (find
      (λ (a : PaymentAttempt).
        a.id == attempt_id && (a.invoice_id == invoice_id && a.business_id == business_id))
      db.attempts) [
        | none ↦ err (not_found "payment attempt not found")
        | some a ↦ elim (find (invoice_is invoice_id) db.invoices) [
          | none ↦ err (not_found "resource not found")
          | some inv ↦ ok (record {
            attempt_id = a.id;
            invoice_id = a.invoice_id;
            status = a.status;
            amount_cents = a.amount_cents.cents;
            invoice_state = as_str inv.state;
            psp_ref = a.psp_ref;
            failure_code = a.failure_code;
            message = none;
            poll_url = none;
          })
        ]
      ]
