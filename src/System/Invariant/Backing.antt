-- ===== src/System/Invariant/Backing.antt =====
-- Every payment attempt stands for an invoice of its business with its amount as total, and once it
-- has succeeded, that invoice is in a terminal state: in every state of the service.
use mathlib.Core.Path.{subst}
use invoice_payment_service.Prelude.{
  ℕ, String, ◌≡◌, refl, sym, Bool, true, false, inl, inr, some, List, arith, Bool-cases,
  if◌then◌else◌,
}
use invoice_payment_service.Domain.{Uuid, Time}
use invoice_payment_service.Domain.Invoice.{is_terminal, Invoice}
use invoice_payment_service.Domain.Payment.{
  PaymentStatus, PaymentAttempt, PspResult, declined, unknown,
}
use invoice_payment_service.Table.{find, amend, update}
use invoice_payment_service.Table.Laws.{exists_of_find}
use invoice_payment_service.Table.Every.{Every, Every-insert, Every-find, Every-update, Every-both}
use invoice_payment_service.Db.{Db}
use invoice_payment_service.InvoiceRepo.{invoice_of}
use invoice_payment_service.PaymentService.Types.{Crates, Claim}
use invoice_payment_service.PaymentService.Statements.{
  attempt_is, pending_is, open_invoice, paid_invoice, succeeded_attempt, failed_attempt,
  unknown_attempt, mark_succeeded, mark_failed, mark_unknown, mark_paid, complete_key,
}
use invoice_payment_service.PaymentService.Pay.{PayIds, claim}
use invoice_payment_service.PaymentService.Finalize.{finalize}
use invoice_payment_service.PaymentService.Outcomes.{
  claim-cases, claim_row, finalize_succeeded-cases, finalize_declined-cases, finalize_unknown_lem,
}
use invoice_payment_service.System.{Txn, Txns}
use invoice_payment_service.System.Evolving.{Txn-EvolvesIn, Txns-EvolvesIn}
use invoice_payment_service.System.Invariant.Fits.{
  fits, fits-Run, left_draft, none_open, open_has_left_draft, terminal_if_closed,
}

-- The invoice of the attempt, as the attempt needs it.
pub record Backed (db : Db) (a : PaymentAttempt) : Type 0 where
  pub invoice : Invoice
  pub found : find (invoice_of a.business_id a.invoice_id) db.invoices ≡ some invoice
  pub amount : invoice.total_cents.cents ≡ a.amount_cents.cents
  pub state : fits a.status invoice.state ≡ true

-- While the attempt stays as it is, so does this.
pub later-Backed : {db db' : Db} → Txn db db' → (a : PaymentAttempt) → Backed db a → Backed db' a
later-Backed t a h =
    let (r, found, e) = Txn-EvolvesIn a.business_id a.invoice_id h.invoice t h.found in
    record {
      invoice = r;
      found = found;
      amount = rw e.same_total h.amount;
      state = fits-Run a.status e.moved.1 h.state;
    }

-- An UPDATE under which the status is no more demanding.
pub rewritten-Backed :
    (db : Db) (p : PaymentAttempt → Bool) (f : PaymentAttempt → PaymentAttempt) (a : PaymentAttempt)
    → (f a).business_id ≡ a.business_id
    → (f a).invoice_id ≡ a.invoice_id
    → (f a).amount_cents ≡ a.amount_cents
    → (h : Backed db a) → (p a ≡ true → fits (f a).status h.invoice.state ≡ true)
    → Backed db (amend p f a)
rewritten-Backed db p f a business invoice amount h status = elim (Bool-cases (p a)) [
  | inr miss ↦ subst (λ b. Backed db (if b then f a else a)) (sym miss) h
  | inl hit ↦
      subst (λ b. Backed db (if b then f a else a)) (sym hit)
        (record {
          invoice = h.invoice;
          found = rw (business, invoice) h.found;
          amount = rw amount h.amount;
          state = status hit;
        })
]

kept :
    {A : Type 0} {r r' : A × Db} (t : List PaymentAttempt)
    → r ≡ r'
    → Every (Backed r.1) t
    → Every (Backed r'.1) t
kept t p h = subst (λ r. Every (Backed r.1) t) p h

moved_to :
    {A : Type 0} {r r' : A × Db}
    → r ≡ r'
    → Every (Backed r'.1) r'.1.attempts
    → Every (Backed r.1) r.1.attempts
moved_to p h = subst (λ r. Every (Backed r.1) r.1.attempts) (sym p) h

-- The first transaction: the new attempt is for the invoice that the request has read, which was open
-- then.
pub claim-Backed :
    (ids : PayIds) (b : Uuid) (key token : String) (fp : List ℕ) (seen : Invoice) {read_in db : Db}
    → find (invoice_of b seen.id) read_in.invoices ≡ some seen
    → Txns read_in db
    → Every
        (Backed (claim ids b seen.id key token fp seen.state seen.total_cents.cents db).1)
        db.attempts
    → Every
        (Backed (claim ids b seen.id key token fp seen.state seen.total_cents.cents db).1)
        (claim ids b seen.id key token fp seen.state seen.total_cents.cents db).1.attempts
claim-Backed ids b key token fp seen {read_in} {db} read r old =
    elim (claim-cases ids b seen.id key token fp seen.total_cents.cents db seen.state) [
      | inl (e, p) ↦ moved_to p (kept db.attempts p old)
      | inr (inl (o, p)) ↦ moved_to p (kept db.attempts p old)
      | inr (inr (new, payable, idle, p)) ↦
          let (now, found, e) = Txns-EvolvesIn r b seen.id seen read in
          moved_to p (
            Every-insert _ (claim_row ids b seen.id key token fp seen.total_cents.cents db)
              db.attempts
              (record {
                invoice = now;
                found = found;
                amount = rw e.same_total refl;
                state =
                    fits-Run PaymentStatus.pending e.moved.1
                      (open_has_left_draft seen.state payable);
              })
              (kept db.attempts p old))
    ]

pending_alike :
    (id : Uuid) {db : Db} (a : PaymentAttempt) (h : Backed db a)
    → pending_is id a ≡ true
    → left_draft h.invoice.state ≡ true
pending_alike id a h hit = ground (arith, h.state)

module _ (c : Crates) (event_id : Uuid) (now : Time) (q : Claim) (db : Db)
    (knows : Every
      (λ a. attempt_is q.attempt_id a ≡ true → a.invoice_id ≡ q.invoice_id)
      db.attempts) where
  succeeded-Backed :
      (psp_ref : String) (db' : Db)
      → db'.invoices ≡ update (open_invoice q.invoice_id) (paid_invoice now) db.invoices
      → Every (Backed db') db.attempts
      → Every
          (Backed db')
          (update (pending_is q.attempt_id) (succeeded_attempt psp_ref now) db.attempts)
  succeeded-Backed psp_ref db' w old =
      Every-update
        (λ a. Backed db' a × (attempt_is q.attempt_id a ≡ true → a.invoice_id ≡ q.invoice_id))
        (Backed db') (pending_is q.attempt_id) (succeeded_attempt psp_ref now) db.attempts
        (λ a both.
          rewritten-Backed db' (pending_is q.attempt_id) (succeeded_attempt psp_ref now) a refl refl
            refl both.0 (λ hit. closed a both.0 (both.1 (ground arith)) (ground arith)))
        (Every-both (Backed db') _ db.attempts old knows)
    where
      closed :
          (a : PaymentAttempt) (h : Backed db' a)
          → a.invoice_id ≡ q.invoice_id
          → left_draft h.invoice.state ≡ true
          → is_terminal h.invoice.state ≡ true
      closed a h own left =
          terminal_if_closed q.invoice_id h.invoice
            (ground (
              arith,
              exists_of_find (invoice_of a.business_id a.invoice_id) h.invoice db'.invoices h.found,
            ))
            left
            (Every-find (λ r. open_invoice q.invoice_id r ≡ false)
              (invoice_of a.business_id a.invoice_id) h.invoice db'.invoices h.found
              (subst (Every (λ r. open_invoice q.invoice_id r ≡ false)) (sym w)
                (none_open q.invoice_id now db.invoices)))

  -- The second transaction.
  pub finalize-Backed :
      (result : PspResult)
      → Every (Backed (finalize c event_id now q result db).1) db.attempts
      → Every
          (Backed (finalize c event_id now q result db).1)
          (finalize c event_id now q result db).1.attempts
  unfolding mark_succeeded mark_failed mark_unknown mark_paid complete_key
  finalize-Backed (PspResult.succeeded psp_ref) old =
      elim (finalize_succeeded-cases event_id now q db c psp_ref) [
        | inl (e, p) ↦ moved_to p (kept db.attempts p old)
        | inr p ↦ moved_to p (succeeded-Backed psp_ref _ refl (kept db.attempts p old))
      ]
  finalize-Backed (declined code) old = elim (finalize_declined-cases event_id now q db c code) [
    | inl (e, p) ↦ moved_to p (kept db.attempts p old)
    | inr p ↦ moved_to p (
        Every-update (Backed _) (Backed _) (pending_is q.attempt_id) (failed_attempt code now)
          db.attempts
          (λ a h.
            rewritten-Backed _ (pending_is q.attempt_id) (failed_attempt code now) a refl refl refl
              h (λ hit. pending_alike q.attempt_id a h hit))
          (kept db.attempts p old))
  ]
  finalize-Backed (unknown reason) old =
      moved_to (finalize_unknown_lem event_id now q db c reason) (
        Every-update (Backed _) (Backed _) (pending_is q.attempt_id) (unknown_attempt reason now)
          db.attempts
          (λ a h.
            rewritten-Backed _ (pending_is q.attempt_id) (unknown_attempt reason now) a refl refl
              refl h (λ hit. h.state))
          (kept db.attempts (finalize_unknown_lem event_id now q db c reason) old))
