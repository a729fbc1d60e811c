-- ===== src/Routes/App.antt =====
-- The router (`build_app` of crates/invoice-service/src/lib.rs and the `router` functions of
-- crates/invoice-service/src/routes): a health check, and the routes behind the API-key middleware.
-- Matching a path and decoding its parameters and the JSON body is axum's and serde's: a request
-- comes as a route with its parameters.
use invoice_payment_service.Prelude.{String, Option}
use invoice_payment_service.Prelude.Int.{ℤ}
use invoice_payment_service.Errors.{AppError, Result, ok, err}
use invoice_payment_service.Domain.{Uuid}
use invoice_payment_service.Domain.Invoice.{InvoiceState, CreateInvoiceRequest}
use invoice_payment_service.Domain.Payment.{PayRequest}
use invoice_payment_service.Domain.Webhook.{CreateEndpointRequest}
use invoice_payment_service.Domain.Customer.{CreateCustomerRequest}
use invoice_payment_service.Domain.ApiKey.{CreateApiKeyRequest}
use invoice_payment_service.PaymentService.Types.{World}
use invoice_payment_service.Auth.{require_api_key}
use invoice_payment_service.Routes.Responses.{Response, text, error_response}
use invoice_payment_service.Routes.Handlers.{
  Outside, create_api_key, list_api_keys, revoke_api_key, create_customer, get_customer,
  list_customers, create_invoice, get_invoice, list_invoices, finalize_invoice, void_route,
  uncollectible_route, pay_invoice_route, get_attempt_route, create_endpoint, list_events_route,
  list_deliveries_route, redeliver_route,
}

-- The routes of each file, with what axum extracts for them, and its `router` for an authenticated
-- business.
pub data ApiKeyRoute : Type 0 where
  post_api_key : CreateApiKeyRequest → ApiKeyRoute
  get_api_keys : ApiKeyRoute
  delete_api_key : (id : Uuid) → ApiKeyRoute

unfoldable pub api_keys_router : Outside → Uuid → ApiKeyRoute → World → Response × World
api_keys_router o b (post_api_key req) w = create_api_key o b w req
api_keys_router o b get_api_keys w = list_api_keys o b w
api_keys_router o b (delete_api_key id) w = revoke_api_key o b w id

pub data CustomerRoute : Type 0 where
  post_customer : CreateCustomerRequest → CustomerRoute
  get_customers : (limit : Option ℤ) (cursor : Option String) → CustomerRoute
  get_one_customer : (id : Uuid) → CustomerRoute

unfoldable pub customers_router : Outside → Uuid → CustomerRoute → World → Response × World
customers_router o b (post_customer req) w = create_customer o b w req
customers_router o b (get_customers limit cursor) w = list_customers o b w limit cursor
customers_router o b (get_one_customer id) w = get_customer o b w id

pub data InvoiceRoute : Type 0 where
  post_invoice : CreateInvoiceRequest → InvoiceRoute
  get_invoices :
      (state : Option InvoiceState) (limit : Option ℤ) (cursor : Option String) → InvoiceRoute
  get_one_invoice : (id : Uuid) → InvoiceRoute
  post_finalize : (id : Uuid) → InvoiceRoute
  post_void : (id : Uuid) → InvoiceRoute
  post_mark_uncollectible : (id : Uuid) → InvoiceRoute
  post_pay : (id : Uuid) (key_header : Option String) → PayRequest → InvoiceRoute
  get_payment : (id attempt_id : Uuid) → InvoiceRoute

unfoldable pub invoices_router : Outside → Uuid → InvoiceRoute → World → Response × World
invoices_router o b (post_invoice req) w = create_invoice o b w req
invoices_router o b (get_invoices state limit cursor) w = list_invoices o b w state limit cursor
invoices_router o b (get_one_invoice id) w = get_invoice o b w id
invoices_router o b (post_finalize id) w = finalize_invoice o b w id
invoices_router o b (post_void id) w = void_route o b w id
invoices_router o b (post_mark_uncollectible id) w = uncollectible_route o b w id
invoices_router o b (post_pay id key_header req) w = pay_invoice_route o b w id key_header req
invoices_router o b (get_payment id attempt_id) w = get_attempt_route o b w id attempt_id

pub data WebhookRoute : Type 0 where
  post_endpoint : CreateEndpointRequest → WebhookRoute
  get_events : (limit : Option ℤ) (cursor : Option String) → WebhookRoute
  get_deliveries : (status : Option String) → WebhookRoute
  post_redeliver : (id : Uuid) → WebhookRoute

unfoldable pub webhooks_router : Outside → Uuid → WebhookRoute → World → Response × World
webhooks_router o b (post_endpoint req) w = create_endpoint o b w req
webhooks_router o b (get_events limit cursor) w = list_events_route o b w limit cursor
webhooks_router o b (get_deliveries status) w = list_deliveries_route o b w status
webhooks_router o b (post_redeliver id) w = redeliver_route o b w id

-- The four routers, merged.
pub data Route : Type 0 where
  api_keys : ApiKeyRoute → Route
  customers : CustomerRoute → Route
  invoices : InvoiceRoute → Route
  webhooks : WebhookRoute → Route

unfoldable pub protected_route : Outside → Uuid → Route → World → Response × World
unfolding api_keys_router customers_router invoices_router webhooks_router
protected_route o b (api_keys route) w = api_keys_router o b route w
protected_route o b (customers route) w = customers_router o b route w
protected_route o b (invoices route) w = invoices_router o b route w
protected_route o b (webhooks route) w = webhooks_router o b route w

-- A request of the application.
pub data AppRequest : Type 0 where
  healthz : AppRequest
  v1 : (authorization : Option String) → Route → AppRequest

-- The middleware in front of the protected routes.
abbrev authorized : Result Uuid AppError → (Uuid → Response × World) → World → Response × World
authorized (ok business_id) next w = next business_id
authorized (err e) next w = (error_response e, w)

-- `build_app`
unfoldable pub serve : Outside → AppRequest → World → Response × World
unfolding protected_route
serve o healthz w = ((200, text "ok"), w)
serve o (v1 authorization route) w =
    authorized (require_api_key o.crates.sha256 o.now authorization w.db)
      (λ b. protected_route o b route w) w
