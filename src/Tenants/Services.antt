-- ===== src/Tenants/Services.antt =====
-- The operations of the services other than payments leave the rows of other businesses alone.
use invoice_payment_service.Prelude.{
  ℕ, ◌≡◌, refl, sym, ◌∙◌, ==_self, String, Bool, ◌&&◌, Option, none, some, List, [], ◌∷◌, arith,
  Bool-cases, inl, inr,
}
use mathlib.Core.Path.{subst}
use invoice_payment_service.Prelude.Int.{pos}
use invoice_payment_service.Errors.{FieldError, AppError, SqlxError, Result, ok, err}
use invoice_payment_service.Money.{from_cents}
use invoice_payment_service.Domain.{Uuid, Time}
use invoice_payment_service.Domain.Invoice.{
  Invoice, InvoiceState, InvoiceResponse, CreateInvoiceRequest, can_transition_to,
}
use invoice_payment_service.Domain.Customer.{Customer, CreateCustomerRequest}
use invoice_payment_service.Domain.Webhook.{CreateEndpointRequest}
use invoice_payment_service.Domain.ApiKey.{ApiKey}
use invoice_payment_service.Table.{find}
use invoice_payment_service.Table.Laws.{where_-insert, where_-update_apart, not_exists_never}
use invoice_payment_service.Db.{Db, query, pure, ◌>>=◌}
use invoice_payment_service.InvoiceRepo.{invoice_of, in_state, transitioned, new_invoice, sum_items}
use invoice_payment_service.InvoiceService.{NewInvoice, create, transition}
use invoice_payment_service.InvoiceService.Transition.{transition_lem, transition_steps, moved}
use invoice_payment_service.InvoiceService.Items.{items_total}
use invoice_payment_service.InvoiceService.Creation.{create-IsCreated}
use invoice_payment_service.InvoiceService.Created.{IsCreated, created_event}
use invoice_payment_service.CustomerService
use invoice_payment_service.CustomerService.{
  insert_customer, new_customer, request_errors, create_checked,
}
use invoice_payment_service.WebhookService.{
  register_endpoint, new_endpoint, redeliver, redeliverable, reset_delivery,
}
use invoice_payment_service.Auth.{
  create_key, insert_key, new_api_key, generate_key, env_or_test, revoke, revocable, revoked,
}
use invoice_payment_service.Tenants.{
  SameForOthers, SameForOthers-refl, other_key, other_customer, other_invoice, other_event,
  other_endpoint, other_delivery,
}

module _ (b : Uuid) where
  insert_key-SameForOthers :
      (k : ApiKey) (db : Db) → k.business_id ≡ b → SameForOthers b db (insert_key k db).1
  unfolding insert_key
  insert_key-SameForOthers k db own = ground (arith, where_-insert (other_key b) k db.api_keys)

  after_query :
      {A C : Type 0} (g : A → C) (db : Db) (r : Result A SqlxError × Db)
      → SameForOthers b db r.1
      → SameForOthers b db ((query (λ d. r) >>= λ a. pure (g a)) db).1
  after_query g db (ok a, db') h = h
  after_query g db (err e, db') h = h

  pub create_key-SameForOthers :
      (sha256 : List ℕ → List ℕ) (random : String) (id : Uuid) (now : Time)
      (name env : Option String) (db : Db)
      → SameForOthers b db (create_key sha256 random id now b name env db).1
  unfolding create_key
  create_key-SameForOthers sha256 random id now name env db =
      let k = new_api_key id now b name (generate_key sha256 random (env_or_test env)) in
      after_query _ db (insert_key k db) (insert_key-SameForOthers k db refl)

  pub revoke-SameForOthers :
      (now : Time) (id : Uuid) (db : Db) → SameForOthers b db (revoke now b id db).1
  unfolding revoke
  revoke-SameForOthers now id db = ground (
    arith,
    where_-update_apart (other_key b) (revocable b id) (revoked now) db.api_keys (λ r. refl)
        (not_exists_never (λ r. revocable b id r && other_key b r) db.api_keys (λ r. ground arith)),
  )

  checked-SameForOthers :
      (citext_eq : String → String → Bool) (c : Customer) (errors : List FieldError) (db : Db)
      → c.business_id ≡ b
      → SameForOthers b db (create_checked citext_eq c errors db).1
  unfolding insert_customer
  checked-SameForOthers citext_eq c [] db own =
      ground (arith, where_-insert (other_customer b) c db.customers)
  checked-SameForOthers citext_eq c (e ∷ errors) db own = SameForOthers-refl b db

  pub create_customer-SameForOthers :
      (citext_eq : String → String → Bool) (id : Uuid) (now : Time) (req : CreateCustomerRequest)
      (db : Db)
      → SameForOthers b db (CustomerService.create citext_eq id now b req db).1
  unfolding CustomerService.create
  create_customer-SameForOthers citext_eq id now req db =
      checked-SameForOthers citext_eq (new_customer id b req.email req.name now)
        (request_errors req) db refl

  pub register_endpoint-SameForOthers :
      (hex : List ℕ → String) (id : Uuid) (secret : List ℕ) (req : CreateEndpointRequest) (db : Db)
      → SameForOthers b db (register_endpoint hex id secret b req db).1
  unfolding register_endpoint
  register_endpoint-SameForOthers hex id secret req db =
      ground (arith, where_-insert (other_endpoint b) (new_endpoint id b secret req) db.endpoints)

  pub redeliver-SameForOthers :
      (now : Time) (id : Uuid) (db : Db) → SameForOthers b db (redeliver now b id db).1
  unfolding redeliver
  redeliver-SameForOthers now id db = ground (
    arith,
    where_-update_apart (other_delivery b) (redeliverable b id) (reset_delivery now) db.deliveries
        (λ r. refl)
        (not_exists_never (λ r. redeliverable b id r && other_delivery b r) db.deliveries
          (λ r. ground arith)),
  )

  moved-SameForOthers :
      (id : Uuid) (from to : InvoiceState) (now : Time) (db : Db) (found : Option Invoice)
      → SameForOthers b db (moved db b id from to now found).1
  moved-SameForOthers id from to now db none = SameForOthers-refl b db
  moved-SameForOthers id from to now db (some r) = ground (
    arith,
    where_-update_apart (other_invoice b) (in_state b id from) (transitioned to now) db.invoices
        (λ r. refl)
        (not_exists_never (λ r. in_state b id from r && other_invoice b r) db.invoices
          (λ r. ground arith)),
  )

  spec-SameForOthers :
      (id : Uuid) (to : InvoiceState) (now : Time) (db : Db) (found : Option Invoice)
      → SameForOthers b db (transition_steps (λ d. d) b id to now found db).1
  spec-SameForOthers id to now db none = SameForOthers-refl b db
  spec-SameForOthers id to now db (some current) =
      elim (Bool-cases (can_transition_to current.state to)) [
        | inr illegal ↦ rw illegal (SameForOthers-refl b db)
        | inl legal ↦ rw legal (
            moved-SameForOthers id current.state to now db
              (find (in_state b id current.state) db.invoices))
      ]

  pub transition-SameForOthers :
      (id : Uuid) (to : InvoiceState) (now : Time) (db : Db)
      → SameForOthers b db (transition (λ d. d) b id to now db).1
  transition-SameForOthers id to now db =
      subst (λ r. SameForOthers b db r.1) (sym (transition_lem (λ d. d) b id to now db))
        (spec-SameForOthers id to now db (find (invoice_of b id) db.invoices))

  created-SameForOthers :
      (ids : NewInvoice) (req : CreateInvoiceRequest) (db : Db)
      (r : Result InvoiceResponse AppError × Db)
      → IsCreated ids b req db r
      → SameForOthers b db r.1
  created-SameForOthers ids req db (err e, db') h =
      subst (λ d. SameForOthers b db d) (sym h) (SameForOthers-refl b db)
  created-SameForOthers ids req db (ok resp, db')
        (total, state, fresh, elsewhere, sum, found, frame) =
      let inv : Invoice = record (new_invoice ids.invoice_id b req.customer_id ids.now) {
        total_cents = from_cents (items_total req.line_items);
      } in
      let event = created_event ids b req.customer_id (items_total req.line_items) db in
      subst (λ d. SameForOthers b db d) (sym frame)
        (record {
          keys_same = refl;
          customers_same = refl;
          invoices_same = where_-insert (other_invoice b) inv db.invoices ∙ rw (==_self b);
          attempts_same = refl;
          idempotency_keys_same = refl;
          endpoints_same = refl;
          events_same = where_-insert (other_event b) event db.events ∙ rw (==_self b);
          deliveries_same = refl;
        })

  pub create_invoice-SameForOthers :
      (ids : NewInvoice) (req : CreateInvoiceRequest) (db : Db)
      → sum_items ids.invoice_id db ≡ pos 0
      → SameForOthers b db (create ids b req db).1
  create_invoice-SameForOthers ids req db none_yet =
      created-SameForOthers ids req db (create ids b req db)
        (create-IsCreated ids b req db none_yet)
