-- ===== src/System/Invariant.antt =====
-- What holds in every state that the requests and the background tasks can reach together.
pub mod Totals
pub mod Fits
pub mod Backing
pub mod Deliveries
use mathlib.Core.Path.{subst}
use invoice_payment_service.Prelude.{◌≡◌, refl, sym, List, [], arith}
use invoice_payment_service.Domain.Payment.{PaymentAttempt}
use invoice_payment_service.Domain.ApiKey.{ApiKey}
use invoice_payment_service.Domain.Customer.{Customer}
use invoice_payment_service.Domain.Webhook.{WebhookEndpoint}
use invoice_payment_service.Table.{exists, count, where_}
use invoice_payment_service.Table.Every.{Every, Every-mono, Every-update, holds_of_only}
use invoice_payment_service.Db.{Db}
use invoice_payment_service.InvoiceService.{create}
use invoice_payment_service.InvoiceService.Creation.{create-CreatesWith}
use invoice_payment_service.PaymentService.Statements.{attempt_is}
use invoice_payment_service.PaymentService.ActiveAttempt.{AtMostOneActive}
use invoice_payment_service.PaymentService.Interleaving.{here, step, Reach-AtMostOneActive}
use invoice_payment_service.Reconciler.{lease, picked, due_ids, leased}
use invoice_payment_service.Dispatcher.Pairs.{UniquePairs}
use invoice_payment_service.Tenants.{InvoiceIdsDiffer}
use invoice_payment_service.System.{
  Txn, claims, finalizes, polls, creates, moves, adds_customer, adds_key, revokes, registers,
  redelivers, fans_out, leases, records, Txns, Txns.here, later,
}
use invoice_payment_service.System.Frames.{
  create_key-Aside, revoke-Aside, create_customer-Aside, register_endpoint-Aside,
  redeliver-SameCore, fan_out-SameCore, lease-SameCore, record_sent-SameCore,
}
use invoice_payment_service.System.Attempts.{
  Txn-Step, Txn-AttemptWrite, AttemptIdsDiffer, write-AttemptIdsDiffer, Txns-Knows, create-attempts,
}
use invoice_payment_service.System.AttemptWrites.{transition-attempts}
use invoice_payment_service.System.Writes.{Txn-InvoiceWrite}
use Totals.{
  ItemsHaveInvoice, IsTotalled, write-InvoiceIdsDiffer, write-ItemsHaveInvoice, write-Totals,
}
use Backing.{Backed, later-Backed, rewritten-Backed, claim-Backed, finalize-Backed}
use Deliveries.{Txn-UniquePairs}

pub record Inv (db : Db) : Type 0 where
  -- The primary keys of invoices and attempts.
  pub invoice_ids : InvoiceIdsDiffer db
  pub attempt_ids : AttemptIdsDiffer db.attempts
  -- The unique indexes of attempts and deliveries.
  pub active : AtMostOneActive db
  pub pairs : UniquePairs db.deliveries
  -- No line item without its invoice, and every total is the sum of the items.
  pub items : ItemsHaveInvoice db
  pub totals : Every (IsTotalled db) db.invoices
  -- Every attempt is for the total of an invoice, which is closed once the attempt has succeeded.
  pub backed : Every (Backed db) db.attempts

same_attempts :
    (db' : Db) {t : List PaymentAttempt}
    → db'.attempts ≡ t
    → Every (Backed db') t
    → Every (Backed db') db'.attempts
same_attempts db' e h = subst (Every (Backed db')) (sym e) h

Txn-Backed :
    {db db' : Db}
    → Txn db db'
    → AttemptIdsDiffer db.attempts
    → Every (Backed db') db.attempts
    → Every (Backed db') db'.attempts
unfolding lease
Txn-Backed (claims ids b key token fp seen read r) differ old =
    claim-Backed ids b key token fp seen read r old
Txn-Backed (finalizes c e now q result {db = db} known r) differ old =
    let (a, found, own, business) = Txns-Knows r q known in
    finalize-Backed c e now q db
      (holds_of_only (λ s. s.invoice_id ≡ q.invoice_id) (attempt_is q.attempt_id) a db.attempts
        (differ q.attempt_id) found own)
      result old
Txn-Backed (polls now db) differ old =
    Every-update (Backed _) (Backed _) (picked (due_ids now db)) (leased now) db.attempts
      (λ a h.
        rewritten-Backed _ (picked (due_ids now db)) (leased now) a refl refl refl h
          (λ hit. h.state))
      old
Txn-Backed (creates ids b req db) differ old =
    same_attempts _
      (create-attempts _ ids b req db (create ids b req db) (create-CreatesWith ids b req db)) old
Txn-Backed (moves b id from to now db legal) differ old =
    same_attempts _ (transition-attempts b id from to now db) old
Txn-Backed (adds_customer eq id now b req db) differ old =
    same_attempts _ (create_customer-Aside eq id now b req db).attempts_same old
Txn-Backed (adds_key sha256 random id now b name env db) differ old =
    same_attempts _ (create_key-Aside sha256 random id now b name env db).attempts_same old
Txn-Backed (revokes now b id db) differ old =
    same_attempts _ (revoke-Aside now b id db).attempts_same old
Txn-Backed (registers hex id secret b req db) differ old =
    same_attempts _ (register_endpoint-Aside hex id secret b req db).attempts_same old
Txn-Backed (redelivers now b id db) differ old =
    same_attempts _ (redeliver-SameCore now b id db).attempts_same old
Txn-Backed (fans_out new_id now db) differ old =
    same_attempts _ (fan_out-SameCore new_id now db).attempts_same old
Txn-Backed (leases now db) differ old = same_attempts _ (lease-SameCore now db).attempts_same old
Txn-Backed (records limit draw now id n sent db) differ old =
    same_attempts _ (record_sent-SameCore limit draw now id n sent db).attempts_same old

Txn-Inv : {db db' : Db} → Txn db db' → Inv db → Inv db'
Txn-Inv {db} {db'} t v = record {
  invoice_ids = write-InvoiceIdsDiffer db db' (Txn-InvoiceWrite t) v.invoice_ids;
  attempt_ids = write-AttemptIdsDiffer db.attempts db'.attempts (Txn-AttemptWrite t) v.attempt_ids;
  active = Reach-AtMostOneActive (step (Txn-Step t) here) v.active;
  pairs = Txn-UniquePairs t v.pairs;
  items = write-ItemsHaveInvoice db db' (Txn-InvoiceWrite t) v.items;
  totals = write-Totals db db' (Txn-InvoiceWrite t) v.totals;
  backed =
      Txn-Backed t v.attempt_ids
        (Every-mono (Backed db) (Backed db') db.attempts (later-Backed t) v.backed);
}

-- Whatever transactions of requests and background tasks follow one another, in whatever order: the ids
-- of invoices and of attempts stay different, an invoice has at most one attempt that is pending or has
-- succeeded, an event has at most one delivery for an endpoint, no line item is without its invoice,
-- every invoice's total is the sum of its line items, and every attempt is for an invoice of its
-- business with its amount as the total, which is in a terminal state once the attempt has succeeded:
-- if all of this held at the start.
pub Txns-Inv : {db db' : Db} → Txns db db' → Inv db → Inv db'
Txns-Inv Txns.here v = v
Txns-Inv (later h t) v = Txn-Inv t (Txns-Inv h v)

-- A database that businesses have set up, with no invoice yet.
abbrev pub bare_db : List ApiKey → List Customer → List WebhookEndpoint → Db
bare_db keys customers endpoints = record {
  api_keys = keys;
  customers = customers;
  invoices = [];
  line_items = [];
  attempts = [];
  idempotency_keys = [];
  endpoints = endpoints;
  events = [];
  deliveries = [];
  next_sequence = 1;
}

pub bare_db-Inv :
    (keys : List ApiKey) (customers : List Customer) (endpoints : List WebhookEndpoint)
    → Inv (bare_db keys customers endpoints)
unfolding count exists where_
bare_db-Inv keys customers endpoints = record {
  invoice_ids = λ id. omega arith;
  attempt_ids = λ id. omega arith;
  active = λ i. omega arith;
  pairs = λ e ep. omega arith;
  items = λ id h. refl;
  totals = tt;
  backed = tt;
}
