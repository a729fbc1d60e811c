-- ===== src/Routes/Handlers.antt =====
-- The handlers of crates/invoice-service/src/routes behind the middleware: each calls one operation
-- of a service and picks the status. What they take from outside is the record `Outside`, with what
-- other requests and tasks do to the database between the transactions of this one.
use invoice_payment_service.Prelude.{ℕ, String, Bool, Option, List}
use invoice_payment_service.Prelude.Int.{ℤ}
use invoice_payment_service.Domain.{Uuid, Time}
use invoice_payment_service.Domain.Invoice.{InvoiceState, CreateInvoiceRequest}
use invoice_payment_service.Domain.Payment.{PayRequest}
use invoice_payment_service.Domain.Webhook.{CreateEndpointRequest}
use invoice_payment_service.Domain.Customer.{CreateCustomerRequest}
use invoice_payment_service.Domain.ApiKey.{CreateApiKeyRequest}
use invoice_payment_service.Db.{Db}
use invoice_payment_service.Pagination.{CursorCodec}
use invoice_payment_service.PaymentService.Types.{Crates, Psp, World}
use invoice_payment_service.PaymentService.Pay.{PayIds, Others, get_attempt}
use invoice_payment_service.InvoiceService
use invoice_payment_service.InvoiceService.{NewInvoice, void_invoice, mark_uncollectible}
use invoice_payment_service.InvoiceService.Listing
use invoice_payment_service.CustomerService
use invoice_payment_service.WebhookService
use invoice_payment_service.Auth
use invoice_payment_service.Routes.{pay_route}
use invoice_payment_service.Routes.Responses.{
  Response, respond, respond_db, respond_pay, empty, invoice, invoice_page, attempt, customer,
  customer_page, api_key, api_keys, endpoint, event_page, deliveries,
}

-- The libraries, the provider, what is drawn or read from the clock for one request, and what the others
-- do meanwhile: around the transactions of a payment, and between the read and the UPDATE of a transition.
pub record Outside : Type 0 where
  pub crates : Crates
  pub psp : Psp
  pub codec : CursorCodec
  pub hex : List ℕ → String
  pub citext_eq : String → String → Bool
  pub key_random : String
  pub secret : List ℕ
  pub new_id : Uuid
  pub new_invoice : NewInvoice
  pub pay_ids : PayIds
  pub now : Time
  pub others : Others
  pub race : Db → Db

module _ (o : Outside) (business_id : Uuid) (w : World) where
  -- routes/api_keys.rs
  unfoldable pub create_api_key : CreateApiKeyRequest → Response × World
  create_api_key req =
      respond_db 201 api_key
        (Auth.create_key o.crates.sha256 o.key_random o.new_id o.now business_id req.name req.env
          w.db)
        w

  unfoldable pub list_api_keys : Response × World
  list_api_keys = ((200, api_keys (Auth.list_keys business_id w.db)), w)

  unfoldable pub revoke_api_key : Uuid → Response × World
  revoke_api_key id = respond_db 204 (λ u. empty) (Auth.revoke o.now business_id id w.db) w

  -- routes/customers.rs
  unfoldable pub create_customer : CreateCustomerRequest → Response × World
  create_customer req =
      respond_db 201 customer
        (CustomerService.create o.citext_eq o.new_id o.now business_id req w.db) w

  unfoldable pub get_customer : Uuid → Response × World
  get_customer id = (respond 200 customer (CustomerService.get business_id id w.db), w)

  unfoldable pub list_customers : Option ℤ → Option String → Response × World
  list_customers limit cursor =
      ((200, customer_page (CustomerService.list o.codec business_id limit cursor w.db)), w)

  -- routes/invoices.rs
  unfoldable pub create_invoice : CreateInvoiceRequest → Response × World
  create_invoice req =
      respond_db 201 invoice (InvoiceService.create o.new_invoice business_id req w.db) w

  unfoldable pub get_invoice : Uuid → Response × World
  get_invoice id = respond_db 200 invoice (InvoiceService.get business_id id w.db) w

  unfoldable pub list_invoices : Option InvoiceState → Option ℤ → Option String → Response × World
  list_invoices state limit cursor =
      ((200, invoice_page (Listing.list o.codec business_id state limit cursor w.db)), w)

  unfoldable pub finalize_invoice : Uuid → Response × World
  finalize_invoice id =
      respond_db 200 invoice (InvoiceService.finalize o.race business_id id o.now w.db) w

  unfoldable pub void_route : Uuid → Response × World
  void_route id = respond_db 200 invoice (void_invoice o.race business_id id o.now w.db) w

  unfoldable pub uncollectible_route : Uuid → Response × World
  uncollectible_route id =
      respond_db 200 invoice (mark_uncollectible o.race business_id id o.now w.db) w

  unfoldable pub pay_invoice_route : Uuid → Option String → PayRequest → Response × World
  pay_invoice_route id key req =
      respond_pay (pay_route o.crates o.psp o.pay_ids o.others business_id id key req w)

  unfoldable pub get_attempt_route : Uuid → Uuid → Response × World
  get_attempt_route id attempt_id =
      (respond 200 attempt (get_attempt business_id id attempt_id w.db), w)

  -- routes/webhooks.rs
  unfoldable pub create_endpoint : CreateEndpointRequest → Response × World
  create_endpoint req =
      respond_db 201 endpoint
        (WebhookService.register_endpoint o.hex o.new_id o.secret business_id req w.db) w

  unfoldable pub list_events_route : Option ℤ → Option String → Response × World
  list_events_route limit cursor =
      ((200, event_page (WebhookService.list_events o.codec business_id limit cursor w.db)), w)

  unfoldable pub list_deliveries_route : Option String → Response × World
  list_deliveries_route status =
      ((200, deliveries (WebhookService.list_deliveries business_id status w.db)), w)

  unfoldable pub redeliver_route : Uuid → Response × World
  redeliver_route id =
      respond_db 202 (λ u. empty) (WebhookService.redeliver o.now business_id id w.db) w
