-- ===== src/System.antt =====
-- The service as a whole: what the requests of the API (crates/invoice-service/src/lib.rs, `build_app`)
-- and the two background tasks that it spawns (`spawn_background_tasks`) do to the database they share,
-- as transactions that interleave in any order. A transaction carries what its task has read or
-- written before in an earlier state of the database.
pub mod Frames
pub mod Evolution
pub mod Writes
pub mod Evolving
pub mod AttemptWrites
pub mod Attempts
pub mod Keys
pub mod Prints
pub mod Answers
pub mod Reuse
pub mod Invariant
pub mod Payments
pub mod Requests
pub mod Background
pub mod Safety
use invoice_payment_service.Prelude.{ℕ, String, Bool, ◌≡◌, true, some, Option, List}
use invoice_payment_service.Prelude.Int.{ℤ}
use invoice_payment_service.Domain.{Uuid, Time}
use invoice_payment_service.Domain.Invoice.{
  InvoiceState, can_transition_to, Invoice, CreateInvoiceRequest,
}
use invoice_payment_service.Domain.Payment.{PaymentAttempt, PspResult}
use invoice_payment_service.Domain.Customer.{CreateCustomerRequest}
use invoice_payment_service.Domain.Webhook.{CreateEndpointRequest}
use invoice_payment_service.Table.{find}
use invoice_payment_service.Db.{Db}
use invoice_payment_service.InvoiceRepo.{invoice_of}
use invoice_payment_service.InvoiceRepo
use invoice_payment_service.InvoiceService
use invoice_payment_service.InvoiceService.{NewInvoice}
use invoice_payment_service.CustomerService
use invoice_payment_service.Auth.{create_key, revoke}
use invoice_payment_service.WebhookService.{register_endpoint, redeliver}
use invoice_payment_service.PaymentService.Types.{Crates, Claim}
use invoice_payment_service.PaymentService.Statements.{attempt_is}
use invoice_payment_service.PaymentService.Pay.{PayIds, claim}
use invoice_payment_service.PaymentService.Finalize.{finalize}
use invoice_payment_service.Reconciler
use invoice_payment_service.Dispatcher
use invoice_payment_service.Dispatcher.{Sent, fan_out, record_sent}

-- The attempt that a task settles is there, and is one for the invoice that the task knows.
abbrev pub Knows : Claim → Db → Type 0
Knows q db =
    (a : PaymentAttempt) × (find (attempt_is q.attempt_id) db.attempts ≡ some a)
    × (a.invoice_id ≡ q.invoice_id)
    × (a.business_id ≡ q.business_id)

mutual
  -- One committed transaction of a handler or of a background task.
  pub data Txn : Db → Db → Type 0 where
    -- The first transaction of a payment, by what the request has read of the invoice.
    claims :
        (ids : PayIds) (business_id : Uuid) (key card_token : String) (fp : List ℕ) (seen : Invoice)
        {read_in db : Db}
        → find (invoice_of business_id seen.id) read_in.invoices ≡ some seen
        → Txns read_in db
        → Txn db
            (claim ids business_id seen.id key card_token fp seen.state seen.total_cents.cents db).1
    -- The second one, of a request or of the reconciler.
    finalizes :
        (c : Crates) (event_id : Uuid) (now : Time) (q : Claim) (result : PspResult)
        {known_in db : Db}
        → Knows q known_in
        → Txns known_in db
        → Txn db (finalize c event_id now q result db).1
    -- The lease of the reconciler.
    polls : (now : Time) (db : Db) → Txn db (Reconciler.lease now db).1
    -- The other handlers that write.
    creates :
        (ids : NewInvoice) (business_id : Uuid) (req : CreateInvoiceRequest) (db : Db)
        → Txn db (InvoiceService.create ids business_id req db).1
    moves :
        (business_id id : Uuid) (from to : InvoiceState) (now : Time) (db : Db)
        → can_transition_to from to ≡ true
        → Txn db (InvoiceRepo.transition business_id id from to now db).1
    adds_customer :
        (citext_eq : String → String → Bool) (id : Uuid) (now : Time) (business_id : Uuid)
        (req : CreateCustomerRequest) (db : Db)
        → Txn db (CustomerService.create citext_eq id now business_id req db).1
    adds_key :
        (sha256 : List ℕ → List ℕ) (random : String) (id : Uuid) (now : Time) (business_id : Uuid)
        (name env : Option String) (db : Db)
        → Txn db (create_key sha256 random id now business_id name env db).1
    revokes :
        (now : Time) (business_id id : Uuid) (db : Db) → Txn db (revoke now business_id id db).1
    registers :
        (hex : List ℕ → String) (id : Uuid) (secret : List ℕ) (business_id : Uuid)
        (req : CreateEndpointRequest) (db : Db)
        → Txn db (register_endpoint hex id secret business_id req db).1
    redelivers :
        (now : Time) (business_id id : Uuid) (db : Db) → Txn db (redeliver now business_id id db).1
    -- The statements of the dispatcher.
    fans_out : (new_id : Uuid → Uuid → Uuid) (now : Time) (db : Db) → Txn db (fan_out new_id now db)
    leases : (now : Time) (db : Db) → Txn db (Dispatcher.lease now db)
    records :
        (max_attempts : ℤ) (draw : ℕ → ℕ) (now : Time) (id : Uuid) (attempts : ℕ) (sent : Sent)
        (db : Db)
        → Txn db (record_sent max_attempts draw now id attempts sent db)

  -- Any number of them, the last one outermost.
  pub data Txns : Db → Db → Type 0 where
    here : {db : Db} → Txns db db
    later : {db1 db2 db3 : Db} → Txns db1 db2 → Txn db2 db3 → Txns db1 db3
