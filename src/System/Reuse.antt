-- ===== src/System/Reuse.antt =====
-- A key that comes back with another request (`replay` of
-- crates/invoice-service/src/services/payment_service.rs).
use mathlib.Core.Path.{subst}
use invoice_payment_service.Prelude.{
  ℕ, String, ◌≡◌, ◌≢◌, refl, sym, ◌∙◌, ap, ◌⊎◌, inl, inr, false, some, List, arith, length,
  Bool-cases, Text.trim, Text.is_empty,
}
use invoice_payment_service.Errors.{AppError, Result, ok, err, parts}
use invoice_payment_service.Domain.{Uuid}
use invoice_payment_service.Domain.Invoice.{Invoice}
use invoice_payment_service.Domain.Payment.{PayRequest}
use invoice_payment_service.Table.{find}
use invoice_payment_service.Table.Laws.{exists_of_find}
use invoice_payment_service.Db.{Db}
use invoice_payment_service.InvoiceRepo.{invoice_of}
use invoice_payment_service.PaymentService.Types.{Crates, Psp, World, PayOutcome}
use invoice_payment_service.PaymentService.Statements.{key_of}
use invoice_payment_service.PaymentService.Fingerprint.{fingerprint, fingerprint_input, bytes_eq}
use invoice_payment_service.PaymentService.Inputs.{IsI64, fingerprint_input_injective}
use invoice_payment_service.PaymentService.Replay.{replay, key_reuse}
use invoice_payment_service.PaymentService.Pay.{PayIds, Others, nobody, pay}
use invoice_payment_service.PaymentService.Cached.{pay_existing}
use invoice_payment_service.PaymentService.Idempotency.{pay-found}
use invoice_payment_service.System.{Txns}
use invoice_payment_service.System.Keys.{HasPrint, Txns-HasPrint}
use invoice_payment_service.System.Prints.{bytes_eq_sound, answered-HasPrint}
use invoice_payment_service.System.Payments.{Interleaved}

-- What a request is hashed from, for the invoice that it finds.
abbrev pub input : Crates → PayRequest → Invoice → List ℕ
input c req inv = fingerprint_input c inv.id req.card_token inv.total_cents.cents

abbrev pub print : Crates → PayRequest → Invoice → List ℕ
print c req inv = fingerprint c inv.id req.card_token inv.total_cents.cents

replay_other_print :
    (c : Crates) (b : Uuid) (key : String) (fp fp' : List ℕ) (i : Uuid) (db : Db)
    → HasPrint b key fp db.idempotency_keys
    → fp ≢ fp'
    → replay c b key fp' i db ≡ err key_reuse
unfolding replay
replay_other_print c b key fp fp' i db (k, found, own) differ =
    elim (Bool-cases (bytes_eq k.request_fingerprint fp')) [
      | inl same ↦ absurd (differ (sym own ∙ bytes_eq_sound k.request_fingerprint fp' same))
      | inr other ↦ ground arith
    ]

found_id :
    (b id : Uuid) (inv : Invoice) (t : List Invoice)
    → find (invoice_of b id) t ≡ some inv
    → inv.id ≡ id
found_id b id inv t found = ground (arith, exists_of_find (invoice_of b id) inv t found)

prints_differ :
    (c : Crates) (b id id' : Uuid) (req req' : PayRequest) (inv inv' : Invoice)
    (t t' : List Invoice)
    → find (invoice_of b id) t ≡ some inv
    → find (invoice_of b id') t' ≡ some inv'
    → ((u : Uuid) → length (c.uuid_bytes u) ≡ 16)
    → ((u v : Uuid) → c.uuid_bytes u ≡ c.uuid_bytes v → u ≡ v)
    → IsI64 inv.total_cents.cents
    → IsI64 inv'.total_cents.cents
    → (print c req inv ≡ print c req' inv' → input c req inv ≡ input c req' inv')
    → (id ≢ id') ⊎ (req.card_token ≢ req'.card_token)
    → print c req inv ≢ print c req' inv'
prints_differ c b id id' req req' inv inv' t t' found found' sixteen apart range range' no_collision
      other same =
    let (ids, tokens, totals) =
      fingerprint_input_injective c inv.id inv'.id req.card_token req'.card_token
        inv.total_cents.cents inv'.total_cents.cents sixteen apart range range'
        (no_collision same) in
    elim other [
      | inl invoice ↦
          invoice (sym (found_id b id inv t found) ∙ ids ∙ found_id b id' inv' t' found')
      | inr token ↦ token tokens
    ]

-- A key that was answered once is refused to every other request of the business for good: after any
-- transactions of requests and tasks, also in the middle of the first request, a request with the same
-- key for another invoice, or with another card token, that is not blank, for an invoice that is found,
-- gets the conflict of a reused key, which is a 409, whatever state its invoice is in; nothing is
-- written and the provider is not called. The bytes of ids are 16 and differ, the totals are in the
-- range of an `i64`, SHA-256 does not collide on the two requests, and no other request comes in the
-- middle of the second one.
pub reused_key_refused :
    (c : Crates) (psp psp' : Psp) (ids ids' : PayIds) (others : Others) (b id id' : Uuid)
    (key : String) (req req' : PayRequest) (w w1 w2 : World) (inv inv' : Invoice) {o : PayOutcome}
    → Interleaved others
    → find (invoice_of b id) w.db.invoices ≡ some inv
    → pay c psp ids others b id key req w ≡ (ok o, w1)
    → Txns w1.db w2.db
    → is_empty (trim req'.card_token) ≡ false
    → find (invoice_of b id') w2.db.invoices ≡ some inv'
    → ((u : Uuid) → length (c.uuid_bytes u) ≡ 16)
    → ((u v : Uuid) → c.uuid_bytes u ≡ c.uuid_bytes v → u ≡ v)
    → IsI64 inv.total_cents.cents
    → IsI64 inv'.total_cents.cents
    → (print c req inv ≡ print c req' inv' → input c req inv ≡ input c req' inv')
    → (id ≢ id') ⊎ (req.card_token ≢ req'.card_token)
    → (pay c psp' ids' nobody b id' key req' w2 ≡ (err key_reuse, w2)) × ((parts key_reuse).0 ≡ 409)
unfolding parts
reused_key_refused c psp psp' ids ids' others b id id' key req req' w w1 w2 inv inv' others_run
      found answered after token' found' sixteen apart range range' no_collision other =
    let (token, _, _) = pay-found c psp ids others b id key req w answered in
    let first =
      subst
        (λ (r : Result PayOutcome AppError × World).
          HasPrint b key (print c req inv) r.1.db.idempotency_keys)
        answered
        (answered-HasPrint c psp ids others others_run b id key req w inv token found
          (ap (λ r. r.0) answered)) in
    let now = Txns-HasPrint b key (print c req inv) after first in
    let (k, there, own) = now in
    (
      pay_existing c psp' ids' b id' key req' w2 inv' token' found'
            (exists_of_find (key_of b key) k w2.db.idempotency_keys there).0
          ∙ ap (λ x. (x, w2))
              (replay_other_print c b key (print c req inv) (print c req' inv') inv'.id w2.db now (
                prints_differ c b id id' req req' inv inv' w.db.invoices w2.db.invoices found found'
                  sixteen apart range range' no_collision other)),
      refl,
    )
