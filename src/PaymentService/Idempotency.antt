-- ===== src/PaymentService/Idempotency.antt =====
-- A request that is sent again with its key: a definite answer is repeated.
use invoice_payment_service.Prelude.{
  ℕ, String, ◌≡◌, refl, sym, ◌∙◌, ap, ◌≢◌, ◌⊎◌, inl, inr, true, false, some, List, ◌∷◌, arith,
  if◌then◌else◌, Option-cases, Text.trim, Text.is_empty,
}
use mathlib.Core.Path.{subst}
use invoice_payment_service.Errors.{AppError, Result, ok, err}
use invoice_payment_service.Domain.{Uuid}
use invoice_payment_service.Domain.Invoice.{Invoice}
use invoice_payment_service.Domain.Payment.{
  PayRequest, PaymentAttemptResponse, PspResult, declined, unknown,
}
use invoice_payment_service.Table.{find, exists}
use invoice_payment_service.Table.Laws.{find-update}
use invoice_payment_service.Db.{Db}
use invoice_payment_service.InvoiceRepo.{invoice_of}
use invoice_payment_service.PaymentService.Types.{
  Crates, Psp, Claim, Charge, World, PayOutcome, succeeded_response, declined_response,
}
use invoice_payment_service.PaymentService.Statements.{
  key_of, open_invoice, paid_invoice, mark_paid, mark_succeeded, mark_failed, complete_key,
}
use invoice_payment_service.PaymentService.Fingerprint.{fingerprint}
use invoice_payment_service.PaymentService.Finalize.{finalize}
use invoice_payment_service.PaymentService.Replay.{replay}
use invoice_payment_service.PaymentService.Pay.{PayIds, Others, nobody, pay}
use invoice_payment_service.PaymentService.Outcomes.{
  claim-cases, claimed_db, succeeded_db, declined_db, succeeded_sent, declined_sent,
  finalize_succeeded-cases, finalize_declined-cases, finalize_unknown_lem,
}
use invoice_payment_service.PaymentService.Cached.{
  pay_existing, pay_claimed, pay_refused, pay_cached, completed-Caches,
}

module _ (c : Crates) (business_id invoice_id : Uuid) (key : String) (req : PayRequest)
    (inv : Invoice) (w : World) (token : is_empty (trim req.card_token) ≡ false)
    (found : find (invoice_of business_id invoice_id) w.db.invoices ≡ some inv) where
  abbrev fp : List ℕ
  fp = fingerprint c inv.id req.card_token inv.total_cents.cents

  -- An answer of the first request, and the world that it left.
  abbrev Repeats : Result PayOutcome AppError × World → Type 0
  Repeats (ok (status, resp), w') =
      (status ≡ 202)
      ⊎ ((psp' : Psp) (ids' : PayIds)
          → pay c psp' ids' nobody business_id invoice_id key req w' ≡ (ok (status, resp), w'))
  Repeats (err e, w') = Unit

  module _ (ids : PayIds)
      (new : exists (key_of business_id key) w.db.idempotency_keys ≡ false) where
    abbrev q : Claim
    q = record {
      business_id = business_id;
      invoice_id = inv.id;
      attempt_id = ids.attempt_id;
      key = key;
      amount_cents = inv.total_cents.cents;
    }

    abbrev db1 : Db
    db1 = claimed_db ids business_id inv.id key req.card_token fp inv.total_cents.cents w.db

    after_success :
        (psp' : Psp) (ids' : PayIds) (charges : List Charge) (psp_ref : String)
        → let w' : World = record {
          db = succeeded_db ids.event_id ids.finalize_now q db1 psp_ref;
          charges = charges;
        } in
          pay c psp' ids' nobody business_id invoice_id key req w'
          ≡ (ok (200, succeeded_response q psp_ref), w')
    unfolding complete_key mark_paid mark_succeeded
    after_success psp' ids' charges psp_ref =
        let w' : World = record {
          db = succeeded_db ids.event_id ids.finalize_now q db1 psp_ref;
          charges = charges;
        } in
        let p = open_invoice inv.id in
        let f = paid_invoice ids.finalize_now in
        pay_cached c psp' ids' business_id invoice_id key req w' inv 200
          (succeeded_response q psp_ref) token
          (
            (if p inv then f inv else inv),
            find-update (invoice_of business_id invoice_id) p f w.db.invoices (λ r. ground arith)
                ∙ rw found refl,
            ground arith,
            ground arith,
          )
          (inl refl)
          (completed-Caches ids business_id inv.id key req.card_token fp inv.total_cents.cents w.db
            (succeeded_sent ids.event_id ids.finalize_now q db1 psp_ref) 200
            (succeeded_response q psp_ref) new refl)

    after_decline :
        (psp' : Psp) (ids' : PayIds) (charges : List Charge) (code : String)
        → let w' : World = record {
          db = declined_db ids.event_id ids.finalize_now q db1 code;
          charges = charges;
        } in
          pay c psp' ids' nobody business_id invoice_id key req w'
          ≡ (ok (402, declined_response q code), w')
    unfolding complete_key mark_failed
    after_decline psp' ids' charges code =
        let w' : World = record {
          db = declined_db ids.event_id ids.finalize_now q db1 code;
          charges = charges;
        } in
        pay_cached c psp' ids' business_id invoice_id key req w' inv 402 (declined_response q code)
          token (inv, found, refl, refl) (inr refl)
          (completed-Caches ids business_id inv.id key req.card_token fp inv.total_cents.cents w.db
            (declined_sent ids.event_id ids.finalize_now q db1 code) 402 (declined_response q code)
            new refl)

    finalize-Repeats :
        (charges : List Charge) (result : PspResult)
        → Repeats (
          (finalize c ids.event_id ids.finalize_now q result db1).0,
          record {
            db = (finalize c ids.event_id ids.finalize_now q result db1).1;
            charges = charges;
          },
        )
    finalize-Repeats charges (PspResult.succeeded psp_ref) =
        elim (finalize_succeeded-cases ids.event_id ids.finalize_now q db1 c psp_ref) [
          | inl (e, p) ↦
              subst (λ r. Repeats (r.0, record { db = r.1; charges = charges })) (sym p) tt
          | inr p ↦
              subst (λ r. Repeats (r.0, record { db = r.1; charges = charges })) (sym p)
                (inr (λ psp' ids'. after_success psp' ids' charges psp_ref))
        ]
    finalize-Repeats charges (declined code) =
        elim (finalize_declined-cases ids.event_id ids.finalize_now q db1 c code) [
          | inl (e, p) ↦
              subst (λ r. Repeats (r.0, record { db = r.1; charges = charges })) (sym p) tt
          | inr p ↦
              subst (λ r. Repeats (r.0, record { db = r.1; charges = charges })) (sym p)
                (inr (λ psp' ids'. after_decline psp' ids' charges code))
        ]
    finalize-Repeats charges (unknown reason) =
        subst (λ r. Repeats (r.0, record { db = r.1; charges = charges }))
          (sym (finalize_unknown_lem ids.event_id ids.finalize_now q db1 c reason)) (inl refl)

  replay-Repeats :
      (r : Result PayOutcome AppError)
      → replay c business_id key fp inv.id w.db ≡ r
      → exists (key_of business_id key) w.db.idempotency_keys ≡ true
      → Repeats (r, w)
  replay-Repeats (ok (status, resp)) e old = inr (λ psp' ids'.
      pay_existing c psp' ids' business_id invoice_id key req w inv token found old
      ∙ ap (λ r. (r, w)) e)
  replay-Repeats (err e') e old = tt

  pay-Repeats :
      (psp : Psp) (ids : PayIds) → Repeats (pay c psp ids nobody business_id invoice_id key req w)
  pay-Repeats psp ids =
      elim (claim-cases ids business_id inv.id key req.card_token fp inv.total_cents.cents w.db
        inv.state) [
          | inl (e, p) ↦
              subst Repeats
                (sym (pay_refused c psp ids business_id invoice_id key req w inv token found p)) tt
          | inr (inl (old, p)) ↦
              subst Repeats
                (sym (pay_existing c psp ids business_id invoice_id key req w inv token found old))
                (replay-Repeats (replay c business_id key fp inv.id w.db) refl old)
          | inr (inr (new, payable, idle, p)) ↦
              subst Repeats
                (sym (pay_claimed c psp ids business_id invoice_id key req w inv token found p))
                (finalize-Repeats ids new (_ ∷ w.charges)
                  (psp req.card_token inv.total_cents.cents key))
        ]

-- An answer other than an error is given only for an invoice that is found.
pub pay-found :
    (c : Crates) (psp : Psp) (ids : PayIds) (others : Others) (business_id invoice_id : Uuid)
    (key : String) (req : PayRequest) (w : World) {o : PayOutcome} {w' : World}
    → pay c psp ids others business_id invoice_id key req w ≡ (ok o, w')
    → (is_empty (trim req.card_token) ≡ false)
      × (inv : Invoice) × (find (invoice_of business_id invoice_id) w.db.invoices ≡ some inv)
unfolding pay
pay-found c psp ids others business_id invoice_id key req w h =
    elim (Option-cases (find (invoice_of business_id invoice_id) w.db.invoices)) [
      | inl missing ↦ absurd (ground arith)
      | inr (inv, found) ↦ (ground arith, inv, found)
    ]

-- A request that is sent again after a definite answer gets that answer again, from the key alone:
-- if `pay` has answered with a status other than 202, then the same request in the world that it left
-- gets the same status and body, whatever the provider would say and whatever new ids are drawn,
-- and neither the database nor the list of calls of the provider changes. No other request comes
-- between.
pub pay_idempotent :
    (c : Crates) (psp psp' : Psp) (ids ids' : PayIds) (business_id invoice_id : Uuid) (key : String)
    (req : PayRequest) (w w' : World) (status : ℕ) (resp : PaymentAttemptResponse)
    → pay c psp ids nobody business_id invoice_id key req w ≡ (ok (status, resp), w')
    → status ≢ 202
    → pay c psp' ids' nobody business_id invoice_id key req w' ≡ (ok (status, resp), w')
pay_idempotent c psp psp' ids ids' business_id invoice_id key req w w' status resp h definite =
    let (token, inv, found) = pay-found c psp ids nobody business_id invoice_id key req w h in
    elim (subst (Repeats c business_id invoice_id key req inv w token found) h
      (pay-Repeats c business_id invoice_id key req inv w token found psp ids)) [
        | inl pending ↦ absurd (definite pending)
        | inr again ↦ again psp' ids'
      ]
