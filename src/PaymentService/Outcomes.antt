-- ===== src/PaymentService/Outcomes.antt =====
-- The ways in which the two transactions of a payment end, with the database that they leave.
use invoice_payment_service.Prelude.{
  ℕ, String, ◌≡◌, refl, ◌⊎◌, inl, inr, true, false, none, some, List, arith, ◌==◌, Bool-cases,
}
use invoice_payment_service.Prelude.Int.{ℤ, pos, ltb_ℤ}
use invoice_payment_service.Errors.{AppError, from_sqlx, Result, ok, err}
use invoice_payment_service.Domain.{Uuid, Time}
use invoice_payment_service.Domain.Invoice.{InvoiceState, open_, state_eq}
use invoice_payment_service.Domain.Payment.{
  PaymentStatus, failed, PaymentAttempt, IdempotencyKey, PspResult, declined, unknown,
}
use invoice_payment_service.Domain.Webhook.{payment, invoice_paid, invoice_payment_failed}
use invoice_payment_service.Table.{exists, insert, update}
use invoice_payment_service.Db.{Db, unique_violation, check_violation}
use invoice_payment_service.Outcomes.{emit_event-cases, emitted}
use invoice_payment_service.PaymentService.Types.{
  Crates, Claim, PayOutcome, succeeded_response, declined_response, unknown_response,
}
use invoice_payment_service.PaymentService.Statements.{
  key_of, new_key, new_attempt, linked_key, active_for, attempt_is, insert_key, insert_attempt,
  link_attempt, mark_succeeded, mark_failed, mark_unknown, mark_paid, complete_key,
}
use invoice_payment_service.PaymentService.Finalize.{finalize}
use invoice_payment_service.PaymentService.Pay.{
  PayIds, claimed, existing, refused, claim, not_payable, attempt_refused,
}

module _ (ids : PayIds) (business_id invoice_id : Uuid) (key card_token : String) (fp : List ℕ)
    (amount : ℤ) (db : Db) where
  abbrev pub claim_key : IdempotencyKey
  claim_key = new_key ids.key_id business_id key fp ids.now

  abbrev pub claim_row : PaymentAttempt
  claim_row = new_attempt ids.attempt_id invoice_id business_id key amount card_token ids.now

  -- What a successful claim writes: the key, linked to the new pending attempt.
  abbrev pub claimed_db : Db
  claimed_db = record db {
    attempts = insert claim_row db.attempts;
    idempotency_keys =
        update (key_of business_id key) (linked_key ids.attempt_id)
          (insert claim_key db.idempotency_keys);
  }

  -- A claim is refused with nothing written; or it finds the key, and writes nothing; or the key is
  -- new, the invoice is open and has no active attempt, and the claim is written.
  pub claim-cases :
      (state : InvoiceState)
      → ((e : AppError) × (claim ids business_id invoice_id key card_token fp state amount db
            ≡ (refused e, db)))
        ⊎ ((exists (key_of business_id key) db.idempotency_keys ≡ true)
            × (claim ids business_id invoice_id key card_token fp state amount db ≡ (existing, db)))
        ⊎ ((exists (key_of business_id key) db.idempotency_keys ≡ false)
            × (state_eq state open_ ≡ true)
            × (exists (active_for invoice_id) db.attempts ≡ false)
            × (claim ids business_id invoice_id key card_token fp state amount db
                ≡ (claimed, claimed_db)))
  unfolding claim insert_key insert_attempt link_attempt
  claim-cases state = elim (Bool-cases (exists (key_of business_id key) db.idempotency_keys)) [
    | inl old ↦ inr (inl (old, ground arith))
    | inr new ↦
        elim (Bool-cases
          (exists (λ (k : IdempotencyKey). k.id == ids.key_id) db.idempotency_keys)) [
            | inl taken ↦ inl (from_sqlx (unique_violation "idempotency_keys_pkey"), ground arith)
            | inr free ↦ elim (Bool-cases (state_eq state open_)) [
              | inr closed ↦ inl (not_payable state, ground arith)
              | inl payable ↦ elim (Bool-cases (exists (attempt_is ids.attempt_id) db.attempts)) [
                | inl there ↦
                    inl (attempt_refused (unique_violation "payment_attempts_pkey"), ground arith)
                | inr fresh ↦ elim (Bool-cases (exists (active_for invoice_id) db.attempts)) [
                  | inl active ↦ inl (
                    attempt_refused (unique_violation "uq_active_attempt_per_invoice"),
                    ground arith,
                  )
                  | inr idle ↦ elim (Bool-cases (ltb_ℤ amount (pos 0))) [
                    | inl negative ↦ inl (
                      attempt_refused (check_violation "payment_attempts_amount_cents_check"),
                      ground arith,
                    )
                    | inr fine ↦ inr (inr (new, payable, idle, ground arith))
                  ]
                ]
              ]
            ]
          ]
  ]

module _ (event_id : Uuid) (now : Time) (q : Claim) (db : Db) where
  -- What a finalized success writes: the attempt, the invoice, the event and the cached response.
  abbrev pub succeeded_sent : String → Db
  succeeded_sent psp_ref =
      emitted event_id q.business_id invoice_paid q.invoice_id
        (payment q.invoice_id q.attempt_id PaymentStatus.succeeded q.amount_cents none) now
        (mark_paid q.invoice_id now (mark_succeeded q.attempt_id psp_ref now db))

  abbrev pub succeeded_db : String → Db
  succeeded_db psp_ref =
      complete_key q.business_id q.key 200 (succeeded_response q psp_ref) (succeeded_sent psp_ref)

  -- What a finalized decline writes: the attempt, the event and the cached response.
  abbrev pub declined_sent : String → Db
  declined_sent code =
      emitted event_id q.business_id invoice_payment_failed q.invoice_id
        (payment q.invoice_id q.attempt_id failed q.amount_cents (some code)) now
        (mark_failed q.attempt_id code now db)

  abbrev pub declined_db : String → Db
  declined_db code =
      complete_key q.business_id q.key 402 (declined_response q code) (declined_sent code)

  -- A transaction that fails, with everything rolled back.
  abbrev RolledBack : Result PayOutcome AppError × Db → Type 0
  RolledBack r = (e : AppError) × (r ≡ (err e, db))

  module _ (c : Crates) where
    pub finalize_succeeded-cases :
        (psp_ref : String)
        → RolledBack (finalize c event_id now q (PspResult.succeeded psp_ref) db)
          ⊎ (finalize c event_id now q (PspResult.succeeded psp_ref) db
              ≡ (ok (200, succeeded_response q psp_ref), succeeded_db psp_ref))
    unfolding finalize
    finalize_succeeded-cases psp_ref =
        let payload =
          payment q.invoice_id q.attempt_id PaymentStatus.succeeded q.amount_cents none in
        let db1 = mark_paid q.invoice_id now (mark_succeeded q.attempt_id psp_ref now db) in
        elim (emit_event-cases event_id q.business_id invoice_paid q.invoice_id payload now db1) [
          | inl (e, no_event) ↦ inl (from_sqlx e, ground arith)
          | inr sent ↦ inr (ground arith)
        ]

    pub finalize_declined-cases :
        (code : String)
        → RolledBack (finalize c event_id now q (declined code) db)
          ⊎ (finalize c event_id now q (declined code) db
              ≡ (ok (402, declined_response q code), declined_db code))
    unfolding finalize
    finalize_declined-cases code =
        let payload = payment q.invoice_id q.attempt_id failed q.amount_cents (some code) in
        let db1 = mark_failed q.attempt_id code now db in
        elim (emit_event-cases event_id q.business_id invoice_payment_failed q.invoice_id payload
          now db1) [
            | inl (e, no_event) ↦ inl (from_sqlx e, ground arith)
            | inr sent ↦ inr (ground arith)
          ]

    pub finalize_unknown_lem :
        (reason : String)
        → finalize c event_id now q (unknown reason) db
          ≡ (ok (202, unknown_response c q), mark_unknown q.attempt_id reason now db)
    unfolding finalize
    finalize_unknown_lem reason = refl
