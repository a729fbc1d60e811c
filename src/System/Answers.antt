-- ===== src/System/Answers.antt =====
-- What a client gets that sends its payment request again, after the reconciler has settled the attempt.
use mathlib.Core.Path.{subst}
use invoice_payment_service.Prelude.{
  ℕ, String, ◌≡◌, refl, sym, ◌∙◌, ap, ◌⊎◌, inl, inr, false, none, some, Option, List, arith,
  Text.trim, Text.is_empty,
}
use invoice_payment_service.Errors.{AppError, Result, ok}
use invoice_payment_service.Domain.{Uuid, Time}
use invoice_payment_service.Domain.Invoice.{Invoice}
use invoice_payment_service.Domain.Payment.{
  PayRequest, PaymentAttempt, PaymentAttemptResponse, PspResult, declined, unknown,
}
use invoice_payment_service.Table.{find, exists}
use invoice_payment_service.Table.Laws.{find-update, exists_of_find}
use invoice_payment_service.Db.{Db}
use invoice_payment_service.WebhookEvents.{event_is}
use invoice_payment_service.InvoiceRepo.{invoice_of}
use invoice_payment_service.PaymentService.Types.{
  Crates, Psp, Claim, World, PayOutcome, succeeded_response, declined_response,
}
use invoice_payment_service.PaymentService.Statements.{
  attempt_is, key_of, completed_key, complete_key, mark_succeeded, mark_failed, mark_paid,
}
use invoice_payment_service.PaymentService.Fingerprint.{fingerprint}
use invoice_payment_service.PaymentService.Finalize.{finalize, finalize_for_reconciler_lem}
use invoice_payment_service.PaymentService.Pay.{PayIds, Others, nobody, pay}
use invoice_payment_service.PaymentService.Outcomes.{succeeded_sent, declined_sent}
use invoice_payment_service.PaymentService.Settled.{succeeded_lem, declined_lem}
use invoice_payment_service.PaymentService.Cached.{Caches, pay_cached}
use invoice_payment_service.PaymentService.Idempotency.{pay-found}
use invoice_payment_service.Reconciler.{TickIds, row_claim, reconcile_row}
use invoice_payment_service.System.{Txns, later, here, finalizes, Knows}
use invoice_payment_service.System.Evolution.{Evolved}
use invoice_payment_service.System.Evolving.{Txns-EvolvesIn}
use invoice_payment_service.System.Keys.{HasPrint, Txns-HasPrint}
use invoice_payment_service.System.Payments.{Interleaved, Txns-trans, pay-Txns}
use invoice_payment_service.System.Prints.{answered-HasPrint}

-- Completing a key that is there leaves it cached.
complete_key-Caches :
    (b : Uuid) (key : String) (fp : List ℕ) (status : ℕ) (resp : PaymentAttemptResponse) (db : Db)
    → HasPrint b key fp db.idempotency_keys
    → Caches b key fp status resp (complete_key b key status resp db)
unfolding complete_key
complete_key-Caches b key fp status resp db (k, found, e) = (
  completed_key status resp k,
  find-update (key_of b key) (key_of b key) (completed_key status resp) db.idempotency_keys
        (λ r. ground arith)
      ∙ rw found (rw (exists_of_find (key_of b key) k db.idempotency_keys found).1 refl),
  e,
  refl,
  refl,
  refl,
)

-- The answer that a definite outcome stands for.
abbrev pub answer : Claim → PspResult → Option PayOutcome
answer q (PspResult.succeeded psp_ref) = some (200, succeeded_response q psp_ref)
answer q (declined code) = some (402, declined_response q code)
answer q (unknown reason) = none

abbrev AnswerCached : Claim → List ℕ → Option PayOutcome → Db → Type 0
AnswerCached q fp none db = Unit
AnswerCached q fp (some (status, resp)) db =
    ((status ≡ 200) ⊎ (status ≡ 402)) × Caches q.business_id q.key fp status resp db

finalize-AnswerCached :
    (c : Crates) (event_id : Uuid) (now : Time) (q : Claim) (result : PspResult) (fp : List ℕ)
    (db : Db)
    → exists (event_is event_id) db.events ≡ false
    → HasPrint q.business_id q.key fp db.idempotency_keys
    → AnswerCached q fp (answer q result) (finalize c event_id now q result db).1
unfolding mark_succeeded mark_failed mark_paid
finalize-AnswerCached c event_id now q (PspResult.succeeded psp_ref) fp db fresh h =
    rw (succeeded_lem c event_id now q db fresh psp_ref) (
      inl refl,
      complete_key-Caches q.business_id q.key fp 200 (succeeded_response q psp_ref)
          (succeeded_sent event_id now q db psp_ref) h,
    )
finalize-AnswerCached c event_id now q (declined code) fp db fresh h =
    rw (declined_lem c event_id now q db fresh code) (
      inr refl,
      complete_key-Caches q.business_id q.key fp 402 (declined_response q code)
          (declined_sent event_id now q db code) h,
    )
finalize-AnswerCached c event_id now q (unknown reason) fp db fresh h = tt

row_db :
    (c : Crates) (psp : Psp) (ids : TickIds) (a : PaymentAttempt) (w : World)
    → (reconcile_row c psp ids a w).db
      ≡ (finalize c
          (ids.event_id a.id)
          ids.finalize_now
          (row_claim a)
          (psp a.card_token a.amount_cents.cents a.idempotency_key)
          w.db).1
unfolding reconcile_row
row_db c psp ids a w = finalize_for_reconciler_lem c (ids.event_id a.id) ids.finalize_now _ _ w.db

cached_then_answered :
    (c : Crates) (psp : Psp) (ids : PayIds) (q : Claim) (id : Uuid) (req : PayRequest)
    (inv inv' : Invoice) (w : World) (o : Option PayOutcome) {o' : PayOutcome}
    → is_empty (trim req.card_token) ≡ false
    → find (invoice_of q.business_id id) w.db.invoices ≡ some inv'
    → Evolved inv inv'
    → AnswerCached q (fingerprint c inv.id req.card_token inv.total_cents.cents) o w.db
    → o ≡ some o'
    → pay c psp ids nobody q.business_id id q.key req w ≡ (ok o', w)
cached_then_answered c psp ids q id req inv inv' w none token found e h is = absurd cc
cached_then_answered c psp ids q id req inv inv' w (some (status, resp)) {o'} token found e
      (definite, h) is =
    let same : (status, resp) ≡ o' = cc in
    pay_cached c psp ids q.business_id id q.key req w inv status resp token
      (inv', found, e.same_id, e.same_total) definite h
    ∙ ap (λ x. (ok x, w)) same

-- A payment request was answered (with a 202, say), and any transactions of requests and tasks have come
-- in between, also in the middle of it. Then the reconciler comes to an attempt of the same business and
-- key, and the provider gives it a definite outcome; the id of the event is new. The same request, sent
-- next, is answered with that outcome for that attempt: a 200 with the provider's reference or a 402
-- with the code, whatever ids it draws, with the provider not called and nothing written. No other
-- request comes between the reconciler and this last one, or in the middle of it.
pub settled_then_answered :
    (c : Crates) (psp psp' psp'' : Psp) (ids ids'' : PayIds) (others : Others) (tick_ids : TickIds)
    (id : Uuid) (req : PayRequest) (a : PaymentAttempt) (w w1 w2 : World) {o o' : PayOutcome}
    → Interleaved others
    → pay c psp ids others a.business_id id a.idempotency_key req w ≡ (ok o, w1)
    → Txns w1.db w2.db
    → find (attempt_is a.id) w2.db.attempts ≡ some a
    → exists (event_is (tick_ids.event_id a.id)) w2.db.events ≡ false
    → answer (row_claim a) (psp' a.card_token a.amount_cents.cents a.idempotency_key) ≡ some o'
    → let w3 = reconcile_row c psp' tick_ids a w2 in
      pay c psp'' ids'' nobody a.business_id id a.idempotency_key req w3 ≡ (ok o', w3)
settled_then_answered c psp psp' psp'' ids ids'' others tick_ids id req a w w1 w2 others_run
      answered after there fresh definite =
    let b = a.business_id in
    let key = a.idempotency_key in
    let q = row_claim a in
    let result = psp' a.card_token a.amount_cents.cents key in
    let w3 = reconcile_row c psp' tick_ids a w2 in
    let at = sym (row_db c psp' tick_ids a w2) in
    let (token, inv, found) = pay-found c psp ids others b id key req w answered in
    let fp = fingerprint c inv.id req.card_token inv.total_cents.cents in
    let print =
      subst (λ (r : Result PayOutcome AppError × World). HasPrint b key fp r.1.db.idempotency_keys)
        answered
        (answered-HasPrint c psp ids others others_run b id key req w inv token found
          (ap (λ r. r.0) answered)) in
    let own : Txns w.db w1.db =
      subst (λ (r : Result PayOutcome AppError × World). Txns w.db r.1.db) answered
        (pay-Txns c psp ids others others_run b id key req w) in
    let known : Knows q w2.db = (a, there, refl, refl) in
    let all =
      later (Txns-trans own after)
        (finalizes c (tick_ids.event_id a.id) tick_ids.finalize_now q result known here) in
    let (inv', found', e) = Txns-EvolvesIn all b id inv found in
    cached_then_answered c psp'' ids'' q id req inv inv' w3 (answer q result) token
      (subst (λ db. find (invoice_of b id) db.invoices ≡ some inv') at found') e
      (subst (AnswerCached q fp (answer q result)) at (
        finalize-AnswerCached c (tick_ids.event_id a.id) tick_ids.finalize_now q result fp w2.db
          fresh (Txns-HasPrint b key fp after print)))
      definite
