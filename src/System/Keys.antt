-- ===== src/System/Keys.antt =====
-- What the transactions of the service do to an idempotency key: it is there for ever, with the
-- fingerprint of the request that made it.
use invoice_payment_service.Prelude.{
  ℕ, String, ◌≡◌, refl, ◌∙◌, ap, Bool, inl, inr, some, List, true, arith, eq_refl, ==_self,
}
use invoice_payment_service.Prelude.Int.{ℤ}
use invoice_payment_service.Errors.{AppError, Result, ok, err}
use invoice_payment_service.Domain.{Uuid, Time}
use invoice_payment_service.Domain.Invoice.{InvoiceState, InvoiceResponse, CreateInvoiceRequest}
use invoice_payment_service.Domain.Payment.{IdempotencyKey, PspResult, declined, unknown}
use invoice_payment_service.Table.{find, amend, insert, update}
use invoice_payment_service.Table.Laws.{
  find-insert, find-update, find-update-insert, exists_of_find,
}
use invoice_payment_service.Db.{Db}
use invoice_payment_service.InvoiceRepo.{transition}
use invoice_payment_service.InvoiceService.{NewInvoice, create}
use invoice_payment_service.InvoiceService.Created.{CreatesWith}
use invoice_payment_service.InvoiceService.Creation.{create-CreatesWith}
use invoice_payment_service.PaymentService.Types.{
  Crates, Claim, succeeded_response, declined_response,
}
use invoice_payment_service.PaymentService.Statements.{
  key_of, linked_key, completed_key, mark_succeeded, mark_failed, mark_unknown, mark_paid,
  complete_key,
}
use invoice_payment_service.PaymentService.Pay.{PayIds, claimed, claim}
use invoice_payment_service.PaymentService.Finalize.{finalize}
use invoice_payment_service.PaymentService.Outcomes.{
  claim-cases, claim_key, finalize_succeeded-cases, finalize_declined-cases, finalize_unknown_lem,
}
use invoice_payment_service.Reconciler.{lease}
use invoice_payment_service.System.Frames.{
  create_key-Aside, revoke-Aside, create_customer-Aside, register_endpoint-Aside,
  redeliver-SameCore, fan_out-SameCore, lease-SameCore, record_sent-SameCore,
}
use invoice_payment_service.System.{
  Txn, claims, finalizes, polls, creates, moves, adds_customer, adds_key, revokes, registers,
  redelivers, fans_out, leases, records, Txns, later,
}

-- The key of a business is there, for requests with the fingerprint.
abbrev pub HasPrint : Uuid → String → List ℕ → List IdempotencyKey → Type 0
HasPrint business_id key fp t =
    (k : IdempotencyKey) × (find (key_of business_id key) t ≡ some k) × (k.request_fingerprint ≡ fp)

module _ (b : Uuid) (key : String) (fp : List ℕ) where
  untouched : (t t' : List IdempotencyKey) → t' ≡ t → HasPrint b key fp t → HasPrint b key fp t'
  untouched t t' same (k, found, e) = (k, ap (find (key_of b key)) same ∙ found, e)

  updated :
      (p : IdempotencyKey → Bool) (f : IdempotencyKey → IdempotencyKey) (t t' : List IdempotencyKey)
      → ((k : IdempotencyKey) → key_of b key (amend p f k) ≡ key_of b key k)
      → ((k : IdempotencyKey) → (amend p f k).request_fingerprint ≡ k.request_fingerprint)
      → t' ≡ update p f t
      → HasPrint b key fp t
      → HasPrint b key fp t'
  updated p f t t' same_key same_print w (k, found, e) = (
    amend p f k,
    ap (find (key_of b key)) w ∙ find-update (key_of b key) p f t same_key ∙ rw found refl,
    same_print k ∙ e,
  )

  inserted :
      (new : IdempotencyKey) (t : List IdempotencyKey)
      → HasPrint b key fp t
      → HasPrint b key fp (insert new t)
  inserted new t (k, found, e) = (
    k,
    find-insert (key_of b key) new t ∙ rw (exists_of_find (key_of b key) k t found).0 found,
    e,
  )

  claim-HasPrint :
      (ids : PayIds) (b' i : Uuid) (key' token : String) (fp' : List ℕ) (state : InvoiceState)
      (amount : ℤ) (db : Db)
      → HasPrint b key fp db.idempotency_keys
      → HasPrint b key fp (claim ids b' i key' token fp' state amount db).1.idempotency_keys
  claim-HasPrint ids b' i key' token fp' state amount db h =
      elim (claim-cases ids b' i key' token fp' amount db state) [
        | inl (e, p) ↦ untouched db.idempotency_keys _ (rw p refl) h
        | inr (inl (old, p)) ↦ untouched db.idempotency_keys _ (rw p refl) h
        | inr (inr (new, payable, idle, p)) ↦
            updated (key_of b' key') (linked_key ids.attempt_id) _ _ (λ k. ground arith)
              (λ k. ground arith) (rw p refl)
              (inserted (claim_key ids b' i key' token fp' amount db) db.idempotency_keys h)
      ]

  pub finalize-HasPrint :
      (c : Crates) (event_id : Uuid) (now : Time) (q : Claim) (result : PspResult) (db : Db)
      → HasPrint b key fp db.idempotency_keys
      → HasPrint b key fp (finalize c event_id now q result db).1.idempotency_keys
  unfolding mark_succeeded mark_failed mark_unknown mark_paid complete_key
  finalize-HasPrint c event_id now q (PspResult.succeeded psp_ref) db h =
      elim (finalize_succeeded-cases event_id now q db c psp_ref) [
        | inl (e, p) ↦ untouched db.idempotency_keys _ (rw p refl) h
        | inr p ↦
            updated (key_of q.business_id q.key) (completed_key 200 (succeeded_response q psp_ref))
              db.idempotency_keys _ (λ k. ground arith) (λ k. ground arith) (rw p refl) h
      ]
  finalize-HasPrint c event_id now q (declined code) db h =
      elim (finalize_declined-cases event_id now q db c code) [
        | inl (e, p) ↦ untouched db.idempotency_keys _ (rw p refl) h
        | inr p ↦
            updated (key_of q.business_id q.key) (completed_key 402 (declined_response q code))
              db.idempotency_keys _ (λ k. ground arith) (λ k. ground arith) (rw p refl) h
      ]
  finalize-HasPrint c event_id now q (unknown reason) db h =
      untouched db.idempotency_keys _ (rw (finalize_unknown_lem event_id now q db c reason) refl) h

  created_keys :
      (total : ℤ) (ids : NewInvoice) (b' : Uuid) (req : CreateInvoiceRequest) (db : Db)
      (r : Result InvoiceResponse AppError × Db)
      → CreatesWith total ids b' req db r
      → r.1.idempotency_keys ≡ db.idempotency_keys
  created_keys total ids b' req db (ok resp, db') (_, _, _, _, _, _, frame) =
      ap (λ d. d.idempotency_keys) frame
  created_keys total ids b' req db (err e, db') same = ap (λ d. d.idempotency_keys) same

  transition_keys :
      (b' id : Uuid) (from to : InvoiceState) (now : Time) (db : Db)
      → (transition b' id from to now db).1.idempotency_keys ≡ db.idempotency_keys
  unfolding transition
  transition_keys b' id from to now db = ground arith

  Txn-HasPrint :
      {db db' : Db}
      → Txn db db'
      → HasPrint b key fp db.idempotency_keys
      → HasPrint b key fp db'.idempotency_keys
  unfolding lease
  Txn-HasPrint (claims ids b' key' token fp' seen {db = db} read r) h =
      claim-HasPrint ids b' seen.id key' token fp' seen.state seen.total_cents.cents db h
  Txn-HasPrint (finalizes c e now q result {db = db} known r) h =
      finalize-HasPrint c e now q result db h
  Txn-HasPrint (polls now db) h = h
  Txn-HasPrint (creates ids b' req db) h =
      untouched db.idempotency_keys _
        (created_keys _ ids b' req db (create ids b' req db) (create-CreatesWith ids b' req db)) h
  Txn-HasPrint (moves b' id from to now db legal) h =
      untouched db.idempotency_keys _ (transition_keys b' id from to now db) h
  Txn-HasPrint (adds_customer eq id now b' req db) h =
      untouched db.idempotency_keys _ (create_customer-Aside eq id now b' req db).idempotency_same h
  Txn-HasPrint (adds_key sha256 random id now b' name env db) h =
      untouched db.idempotency_keys _
        (create_key-Aside sha256 random id now b' name env db).idempotency_same h
  Txn-HasPrint (revokes now b' id db) h =
      untouched db.idempotency_keys _ (revoke-Aside now b' id db).idempotency_same h
  Txn-HasPrint (registers hex id secret b' req db) h =
      untouched db.idempotency_keys _
        (register_endpoint-Aside hex id secret b' req db).idempotency_same h
  Txn-HasPrint (redelivers now b' id db) h =
      untouched db.idempotency_keys _ (redeliver-SameCore now b' id db).idempotency_same h
  Txn-HasPrint (fans_out new_id now db) h =
      untouched db.idempotency_keys _ (fan_out-SameCore new_id now db).idempotency_same h
  Txn-HasPrint (leases now db) h =
      untouched db.idempotency_keys _ (lease-SameCore now db).idempotency_same h
  Txn-HasPrint (records limit draw now id n sent db) h =
      untouched db.idempotency_keys _
        (record_sent-SameCore limit draw now id n sent db).idempotency_same h

  pub Txns-HasPrint :
      {db db' : Db}
      → Txns db db'
      → HasPrint b key fp db.idempotency_keys
      → HasPrint b key fp db'.idempotency_keys
  Txns-HasPrint Txns.here h = h
  Txns-HasPrint (later r t) h = Txn-HasPrint t (Txns-HasPrint r h)

  -- What a claim leaves of a new key.
  pub claimed-HasPrint :
      (ids : PayIds) (i : Uuid) (token : String) (state : InvoiceState) (amount : ℤ) (db : Db)
      → (claim ids b i key token fp state amount db).0 ≡ claimed
      → HasPrint b key fp (claim ids b i key token fp state amount db).1.idempotency_keys
  claimed-HasPrint ids i token state amount db h =
      elim (claim-cases ids b i key token fp amount db state) [
        | inl (e, p) ↦ absurd (ground arith)
        | inr (inl (old, p)) ↦ absurd (ground arith)
        | inr (inr (new, payable, idle, p)) ↦
            let k = claim_key ids b i key token fp amount db in
            let here : key_of b key k ≡ true = ground (arith, ==_self b, eq_refl key) in
            (
              linked_key ids.attempt_id k,
              rw p (
                  find-update-insert (key_of b key) (key_of b key) (linked_key ids.attempt_id) k
                    db.idempotency_keys (λ r. ground arith) new here
                  ∙ rw here refl),
              refl,
            )
      ]
