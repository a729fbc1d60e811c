-- ===== src/PaymentService/Cached.antt =====
-- Keys that cache an answer, and what `pay` does with a known key, with a claim and with a refusal.
use invoice_payment_service.Prelude.{
  ℕ, String, ◌≡◌, refl, ◌∙◌, ap, ◌⊎◌, true, false, some, List, [], ◌∷◌, arith, eq_refl, ==_self,
  Text.trim, Text.is_empty,
}
use invoice_payment_service.Prelude.Int.{ℤ}
use invoice_payment_service.Errors.{AppError, ok, err}
use invoice_payment_service.Domain.{Uuid}
use invoice_payment_service.Domain.Invoice.{Invoice}
use invoice_payment_service.Domain.Payment.{
  PayRequest, PaymentAttemptResponse, IdempotencyKey, completed,
}
use invoice_payment_service.Table.{find, exists}
use invoice_payment_service.Table.Laws.{find-update, find-update-insert, exists_of_find}
use invoice_payment_service.Db.{Db}
use invoice_payment_service.InvoiceRepo.{invoice_of}
use invoice_payment_service.PaymentService.Types.{Crates, Psp, Claim, Charge, World}
use invoice_payment_service.PaymentService.Statements.{
  key_of, linked_key, completed_key, complete_key, insert_key,
}
use invoice_payment_service.PaymentService.Fingerprint.{fingerprint, bytes_eq}
use invoice_payment_service.PaymentService.Finalize.{finalize}
use invoice_payment_service.PaymentService.Replay.{replay, replay_row}
use invoice_payment_service.PaymentService.Pay.{
  PayIds, nobody, refused, existing, claimed, claim, pay_invoice, after_claim, pay,
}
use invoice_payment_service.PaymentService.Outcomes.{claim_key, claimed_db}

bytes_eq_refl : (xs : List ℕ) → bytes_eq xs xs ≡ true
unfolding bytes_eq
bytes_eq_refl [] = refl
bytes_eq_refl (x ∷ xs) = ground (arith, bytes_eq_refl xs)

-- A key that caches an answer to a request.
abbrev pub Caches : Uuid → String → List ℕ → ℕ → PaymentAttemptResponse → Db → Type 0
Caches business_id key fp status resp db =
    (k : IdempotencyKey) × (find (key_of business_id key) db.idempotency_keys ≡ some k)
    × (k.request_fingerprint ≡ fp)
    × (k.status ≡ completed)
    × (k.response_status ≡ some status)
    × (k.response_body ≡ some resp)

replay_row_completed :
    (c : Crates) (fp : List ℕ) (invoice_id : Uuid) (status : ℕ) (resp : PaymentAttemptResponse)
    (k : IdempotencyKey)
    → (status ≡ 200) ⊎ (status ≡ 402)
    → k.request_fingerprint ≡ fp
    → k.status ≡ completed
    → k.response_status ≡ some status
    → k.response_body ≡ some resp
    → replay_row c fp invoice_id k ≡ ok (status, resp)
replay_row_completed c fp invoice_id status resp k definite f s r b =
    ground (arith, bytes_eq_refl fp)

replay_cached :
    (c : Crates) (business_id : Uuid) (key : String) (fp : List ℕ) (invoice_id : Uuid) (status : ℕ)
    (resp : PaymentAttemptResponse) (db : Db)
    → (status ≡ 200) ⊎ (status ≡ 402)
    → Caches business_id key fp status resp db
    → replay c business_id key fp invoice_id db ≡ ok (status, resp)
unfolding replay
replay_cached c business_id key fp invoice_id status resp db definite (k, found, f, s, r, b) =
    ground (arith, replay_row_completed c fp invoice_id status resp k definite f s r b)

claim_existing :
    (ids : PayIds) (business_id invoice_id : Uuid) (key card_token : String) (fp : List ℕ)
    (inv : Invoice) (db : Db)
    → exists (key_of business_id key) db.idempotency_keys ≡ true
    → claim ids business_id invoice_id key card_token fp inv.state inv.total_cents.cents db
      ≡ (existing, db)
unfolding claim insert_key
claim_existing ids business_id invoice_id key card_token fp inv db old = ground arith

module _ (c : Crates) (psp : Psp) (ids : PayIds) (business_id invoice_id : Uuid) (key : String)
    (req : PayRequest) (w : World) (inv : Invoice) (token : is_empty (trim req.card_token) ≡ false)
    (found : find (invoice_of business_id invoice_id) w.db.invoices ≡ some inv) where
  abbrev pub amount : ℤ
  amount = inv.total_cents.cents

  abbrev pub print : List ℕ
  print = fingerprint c inv.id req.card_token amount

  pay_step :
      pay c psp ids nobody business_id invoice_id key req w
      ≡ pay_invoice c psp ids nobody business_id key req.card_token w inv
  unfolding pay
  pay_step = rw (token, found) refl

  -- With a known key `pay` is the replay, and the world stays as it is.
  pub pay_existing :
      exists (key_of business_id key) w.db.idempotency_keys ≡ true
      → pay c psp ids nobody business_id invoice_id key req w
        ≡ (replay c business_id key print inv.id w.db, w)
  unfolding pay_invoice after_claim
  pay_existing old =
      ground (
        arith,
        pay_step,
        claim_existing ids business_id inv.id key req.card_token print inv w.db old,
      )

  abbrev pub the_claim : Claim
  the_claim = record {
    business_id = business_id;
    invoice_id = inv.id;
    attempt_id = ids.attempt_id;
    key = key;
    amount_cents = amount;
  }

  abbrev claimed_here : Db
  claimed_here = claimed_db ids business_id inv.id key req.card_token print amount w.db

  abbrev pub the_call : Charge
  the_call = record { card_token = req.card_token; amount_cents = amount; idempotency_key = key }

  -- With a claim `pay` is the call of the provider and the second transaction.
  pub pay_claimed :
      claim ids business_id inv.id key req.card_token print inv.state amount w.db
        ≡ (claimed, claimed_here)
      → pay c psp ids nobody business_id invoice_id key req w ≡ (
        (finalize c ids.event_id ids.finalize_now the_claim
            (psp req.card_token amount key)
            claimed_here).0,
        record {
          db =
              (finalize c ids.event_id ids.finalize_now the_claim
                (psp req.card_token amount key)
                claimed_here).1;
          charges = the_call ∷ w.charges;
        },
      )
  unfolding pay_invoice after_claim
  pay_claimed p = ground (arith, pay_step)

  pub pay_refused :
      {e : AppError}
      → claim ids business_id inv.id key req.card_token print inv.state amount w.db
        ≡ (refused e, w.db)
      → pay c psp ids nobody business_id invoice_id key req w ≡ (err e, w)
  unfolding pay_invoice after_claim
  pay_refused p = ground (arith, pay_step)

-- A paid invoice is still found, under the same id and with the same total.
abbrev SameInvoice : Uuid → Uuid → Invoice → Db → Type 0
SameInvoice business_id invoice_id inv db =
    (inv' : Invoice) × (find (invoice_of business_id invoice_id) db.invoices ≡ some inv')
    × (inv'.id ≡ inv.id)
    × (inv'.total_cents ≡ inv.total_cents)

-- A key that caches an answer gives it, and the world stays as it is.
pub pay_cached :
    (c : Crates) (psp : Psp) (ids : PayIds) (business_id invoice_id : Uuid) (key : String)
    (req : PayRequest) (w : World) (inv : Invoice) (status : ℕ) (resp : PaymentAttemptResponse)
    → is_empty (trim req.card_token) ≡ false
    → SameInvoice business_id invoice_id inv w.db
    → (status ≡ 200) ⊎ (status ≡ 402)
    → Caches business_id key
        (fingerprint c inv.id req.card_token inv.total_cents.cents)
        status
        resp
        w.db
    → pay c psp ids nobody business_id invoice_id key req w ≡ (ok (status, resp), w)
pay_cached c psp ids business_id invoice_id key req w inv status resp token (inv', found, id, total)
      definite (k, key_found, f, s, r, b) =
    let print' = fingerprint c inv'.id req.card_token inv'.total_cents.cents in
    let same : fingerprint c inv.id req.card_token inv.total_cents.cents ≡ print' =
      rw (id, total) refl in
    pay_existing c psp ids business_id invoice_id key req w inv' token found
      (exists_of_find (key_of business_id key) k w.db.idempotency_keys key_found).0
    ∙ ap (λ x. (x, w))
        (replay_cached c business_id key print' inv'.id status resp w.db definite
          (k, key_found, f ∙ same, s, r, b))

-- Completing a key that was just claimed leaves it cached.
pub completed-Caches :
    (ids : PayIds) (business_id invoice_id : Uuid) (key card_token : String) (fp : List ℕ)
    (amount : ℤ) (db db' : Db) (status : ℕ) (resp : PaymentAttemptResponse)
    → exists (key_of business_id key) db.idempotency_keys ≡ false
    → db'.idempotency_keys
      ≡ (claimed_db ids business_id invoice_id key card_token fp amount db).idempotency_keys
    → Caches business_id key fp status resp (complete_key business_id key status resp db')
unfolding complete_key
completed-Caches ids business_id invoice_id key card_token fp amount db db' status resp new same =
    let is_key = key_of business_id key in
    let k = claim_key ids business_id invoice_id key card_token fp amount db in
    let here : is_key k ≡ true = ground (arith, ==_self business_id, eq_refl key) in
    let linked : find is_key db'.idempotency_keys ≡ some (linked_key ids.attempt_id k) = rw same (
      find-update-insert is_key is_key (linked_key ids.attempt_id) k db.idempotency_keys
        (λ r. ground arith) new here
      ∙ rw here) in
    (
      completed_key status resp (linked_key ids.attempt_id k),
      find-update is_key is_key (completed_key status resp) db'.idempotency_keys (λ r. ground arith)
          ∙ rw linked (rw here),
      refl,
      refl,
      refl,
      refl,
    )
