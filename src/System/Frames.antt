-- ===== src/System/Frames.antt =====
-- Handlers and tasks that touch no invoice, no line item, no payment attempt and no idempotency key:
-- those on API keys, customers, endpoints and deliveries.
use invoice_payment_service.Prelude.{ℕ, String, ◌≡◌, refl, Bool, Option, List, [], ◌∷◌, arith}
use invoice_payment_service.Prelude.Int.{ℤ}
use invoice_payment_service.Errors.{FieldError, SqlxError, Result, ok, err}
use invoice_payment_service.Domain.{Uuid, Time}
use invoice_payment_service.Domain.Customer.{Customer, CreateCustomerRequest}
use invoice_payment_service.Domain.Webhook.{CreateEndpointRequest}
use invoice_payment_service.Domain.ApiKey.{ApiKey}
use invoice_payment_service.Db.{Db, query, pure, ◌>>=◌}
use invoice_payment_service.CustomerService
use invoice_payment_service.CustomerService.{
  insert_customer, create_checked, new_customer, request_errors,
}
use invoice_payment_service.Auth.{
  create_key, insert_key, revoke, new_api_key, generate_key, env_or_test,
}
use invoice_payment_service.WebhookService.{register_endpoint, redeliver}
use invoice_payment_service.Dispatcher.{
  Sent, responded, transport_error, fan_out, lease, record_sent, mark_succeeded, mark_failed,
}

pub record SameCore (db db' : Db) : Type 0 where
  pub invoices_same : db'.invoices ≡ db.invoices
  pub attempts_same : db'.attempts ≡ db.attempts
  pub items_same : db'.line_items ≡ db.line_items
  pub idempotency_same : db'.idempotency_keys ≡ db.idempotency_keys

-- A handler that does not touch the deliveries either.
pub record Aside (db db' : Db) : Type 0 where
  pub core : SameCore db db'
  pub open core use *
  pub deliveries_same : db'.deliveries ≡ db.deliveries

insert_key-Aside : (k : ApiKey) (db : Db) → Aside db (insert_key k db).1
unfolding insert_key
insert_key-Aside k db = ground arith

after_query :
    {A C : Type 0} (g : A → C) (db : Db) (r : Result A SqlxError × Db)
    → Aside db r.1
    → Aside db ((query (λ d. r) >>= λ a. pure (g a)) db).1
after_query g db (ok a, db') h = h
after_query g db (err e, db') h = h

pub create_key-Aside :
    (sha256 : List ℕ → List ℕ) (random : String) (id : Uuid) (now : Time) (b : Uuid)
    (name env : Option String) (db : Db)
    → Aside db (create_key sha256 random id now b name env db).1
unfolding create_key
create_key-Aside sha256 random id now b name env db =
    let k = new_api_key id now b name (generate_key sha256 random (env_or_test env)) in
    after_query _ db (insert_key k db) (insert_key-Aside k db)

pub revoke-Aside : (now : Time) (b id : Uuid) (db : Db) → Aside db (revoke now b id db).1
unfolding revoke
revoke-Aside now b id db = ground arith

checked-Aside :
    (citext_eq : String → String → Bool) (c : Customer) (errors : List FieldError) (db : Db)
    → Aside db (create_checked citext_eq c errors db).1
unfolding insert_customer
checked-Aside citext_eq c [] db = ground arith
checked-Aside citext_eq c (e ∷ errors) db = ground arith

pub create_customer-Aside :
    (citext_eq : String → String → Bool) (id : Uuid) (now : Time) (b : Uuid)
    (req : CreateCustomerRequest) (db : Db)
    → Aside db (CustomerService.create citext_eq id now b req db).1
unfolding CustomerService.create
create_customer-Aside citext_eq id now b req db =
    checked-Aside citext_eq (new_customer id b req.email req.name now) (request_errors req) db

pub register_endpoint-Aside :
    (hex : List ℕ → String) (id : Uuid) (secret : List ℕ) (b : Uuid) (req : CreateEndpointRequest)
    (db : Db)
    → Aside db (register_endpoint hex id secret b req db).1
unfolding register_endpoint
register_endpoint-Aside hex id secret b req db = ground arith

pub redeliver-SameCore :
    (now : Time) (b id : Uuid) (db : Db) → SameCore db (redeliver now b id db).1
unfolding redeliver
redeliver-SameCore now b id db = ground arith

pub fan_out-SameCore :
    (new_id : Uuid → Uuid → Uuid) (now : Time) (db : Db) → SameCore db (fan_out new_id now db)
unfolding fan_out
fan_out-SameCore new_id now db = record {
  invoices_same = refl;
  attempts_same = refl;
  items_same = refl;
  idempotency_same = refl;
}

pub lease-SameCore : (now : Time) (db : Db) → SameCore db (lease now db)
unfolding lease
lease-SameCore now db = record {
  invoices_same = refl;
  attempts_same = refl;
  items_same = refl;
  idempotency_same = refl;
}

pub record_sent-SameCore :
    (max_attempts : ℤ) (draw : ℕ → ℕ) (now : Time) (id : Uuid) (attempts : ℕ) (sent : Sent)
    (db : Db)
    → SameCore db (record_sent max_attempts draw now id attempts sent db)
unfolding record_sent mark_succeeded mark_failed
record_sent-SameCore max_attempts draw now id attempts (responded code) db = ground arith
record_sent-SameCore max_attempts draw now id attempts (transport_error e) db = ground arith
