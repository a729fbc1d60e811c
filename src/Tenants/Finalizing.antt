-- ===== src/Tenants/Finalizing.antt =====
-- The second transaction of a payment leaves the rows of other businesses alone.
use invoice_payment_service.Prelude.{ℕ, ◌≡◌, refl, sym, ◌∙◌, ==_self, false, ◌&&◌, arith, inl, inr}
use mathlib.Core.Path.{subst}
use invoice_payment_service.Domain.{Uuid, Time}
use invoice_payment_service.Domain.Payment.{
  PaymentAttempt, PaymentAttemptResponse, PspResult, declined, unknown,
}
use invoice_payment_service.Table.{where_, exists, update}
use invoice_payment_service.Table.Laws.{
  where_-insert, where_-update_apart, not_exists_never, not_exists_of_implied,
}
use invoice_payment_service.Db.{Db}
use invoice_payment_service.InvoiceRepo.{invoice_is}
use invoice_payment_service.PaymentService.Types.{
  Crates, Claim, succeeded_response, declined_response,
}
use invoice_payment_service.PaymentService.Statements.{
  attempt_is, pending_is, key_of, completed_key, open_invoice, paid_invoice, succeeded_attempt,
  failed_attempt, unknown_attempt, mark_succeeded, mark_failed, mark_unknown, mark_paid,
  complete_key,
}
use invoice_payment_service.PaymentService.Finalize.{finalize}
use invoice_payment_service.PaymentService.Outcomes.{
  finalize_succeeded-cases, finalize_declined-cases, finalize_unknown_lem,
}
use invoice_payment_service.Tenants.{
  SameForOthers, SameForOthers-refl, other_invoice, other_attempt, other_idempotency_key,
  other_event,
}

pub SameForOthers-trans :
    (b : Uuid) {db1 db2 db3 : Db}
    → SameForOthers b db1 db2
    → SameForOthers b db2 db3
    → SameForOthers b db1 db3
SameForOthers-trans b h k = record {
  keys_same = k.keys_same ∙ h.keys_same;
  customers_same = k.customers_same ∙ h.customers_same;
  invoices_same = k.invoices_same ∙ h.invoices_same;
  attempts_same = k.attempts_same ∙ h.attempts_same;
  idempotency_keys_same = k.idempotency_keys_same ∙ h.idempotency_keys_same;
  endpoints_same = k.endpoints_same ∙ h.endpoints_same;
  events_same = k.events_same ∙ h.events_same;
  deliveries_same = k.deliveries_same ∙ h.deliveries_same;
}

-- The second transaction, where no attempt and no invoice of another business has the ids of the claim.
module _ (c : Crates) (event_id : Uuid) (now : Time) (q : Claim) (db : Db)
    (own_attempt : exists
        (λ r. attempt_is q.attempt_id r && other_attempt q.business_id r)
        db.attempts
      ≡ false)
    (own_invoice : exists
        (λ r. invoice_is q.invoice_id r && other_invoice q.business_id r)
        db.invoices
      ≡ false) where
  abbrev b : Uuid
  b = q.business_id

  attempts_apart :
      (f : PaymentAttempt → PaymentAttempt)
      → ((r : PaymentAttempt) → (f r).business_id ≡ r.business_id)
      → where_ (other_attempt b) (update (pending_is q.attempt_id) f db.attempts)
        ≡ where_ (other_attempt b) db.attempts
  attempts_apart f keep =
      where_-update_apart (other_attempt b) (pending_is q.attempt_id) f db.attempts
        (λ r. rw (keep r))
        (not_exists_of_implied (λ r. pending_is q.attempt_id r && other_attempt b r)
          (λ r. attempt_is q.attempt_id r && other_attempt b r) db.attempts (λ r. ground arith)
          own_attempt)

  invoices_apart :
      where_ (other_invoice b) (update (open_invoice q.invoice_id) (paid_invoice now) db.invoices)
      ≡ where_ (other_invoice b) db.invoices
  invoices_apart =
      where_-update_apart (other_invoice b) (open_invoice q.invoice_id) (paid_invoice now)
        db.invoices (λ r. refl)
        (not_exists_of_implied (λ r. open_invoice q.invoice_id r && other_invoice b r)
          (λ r. invoice_is q.invoice_id r && other_invoice b r) db.invoices (λ r. ground arith)
          own_invoice)

  keys_apart :
      (status : ℕ) (resp : PaymentAttemptResponse)
      → where_
          (other_idempotency_key b)
          (update (key_of b q.key) (completed_key status resp) db.idempotency_keys)
        ≡ where_ (other_idempotency_key b) db.idempotency_keys
  keys_apart status resp =
      where_-update_apart (other_idempotency_key b) (key_of b q.key) (completed_key status resp)
        db.idempotency_keys (λ r. refl)
        (not_exists_never (λ r. key_of b q.key r && other_idempotency_key b r) db.idempotency_keys
          (λ r. ground arith))

  pub finalize-SameForOthers :
      (result : PspResult) → SameForOthers b db (finalize c event_id now q result db).1
  unfolding mark_succeeded mark_failed mark_unknown mark_paid complete_key
  finalize-SameForOthers (PspResult.succeeded psp_ref) =
      elim (finalize_succeeded-cases event_id now q db c psp_ref) [
        | inl (e, p) ↦ subst (λ r. SameForOthers b db r.1) (sym p) (SameForOthers-refl b db)
        | inr p ↦
            subst (λ r. SameForOthers b db r.1) (sym p)
              (record {
                keys_same = refl;
                customers_same = refl;
                invoices_same = invoices_apart;
                attempts_same = attempts_apart (succeeded_attempt psp_ref now) (λ r. refl);
                idempotency_keys_same = keys_apart 200 (succeeded_response q psp_ref);
                endpoints_same = refl;
                events_same = where_-insert (other_event b) _ db.events ∙ rw (==_self b);
                deliveries_same = refl;
              })
      ]
  finalize-SameForOthers (declined code) = elim (finalize_declined-cases event_id now q db c code) [
    | inl (e, p) ↦ subst (λ r. SameForOthers b db r.1) (sym p) (SameForOthers-refl b db)
    | inr p ↦
        subst (λ r. SameForOthers b db r.1) (sym p)
          (record {
            keys_same = refl;
            customers_same = refl;
            invoices_same = refl;
            attempts_same = attempts_apart (failed_attempt code now) (λ r. refl);
            idempotency_keys_same = keys_apart 402 (declined_response q code);
            endpoints_same = refl;
            events_same = where_-insert (other_event b) _ db.events ∙ rw (==_self b);
            deliveries_same = refl;
          })
  ]
  finalize-SameForOthers (unknown reason) =
      subst (λ r. SameForOthers b db r.1) (sym (finalize_unknown_lem event_id now q db c reason))
        (record {
          keys_same = refl;
          customers_same = refl;
          invoices_same = refl;
          attempts_same = attempts_apart (unknown_attempt reason now) (λ r. refl);
          idempotency_keys_same = refl;
          endpoints_same = refl;
          events_same = refl;
          deliveries_same = refl;
        })
