-- ===== src/Routes/Isolation.antt =====
-- What a request can do to the businesses that did not send it.
use invoice_payment_service.Prelude.{
  String, ◌≡◌, refl, sym, Option, none, some, Option-cases, inl, inr,
}
use mathlib.Core.Path.{subst}
use invoice_payment_service.Prelude.Int.{pos}
use invoice_payment_service.Errors.{AppError, not_found, Result, ok, err}
use invoice_payment_service.Domain.{Uuid}
use invoice_payment_service.Domain.Invoice.{
  Invoice, InvoiceState, from_parts, open_, void, uncollectible,
}
use invoice_payment_service.Domain.Payment.{PayRequest}
use invoice_payment_service.Table.{find}
use invoice_payment_service.Db.{query, pure, ok_or, ◌>>=◌}
use invoice_payment_service.InvoiceRepo.{invoice_of, sum_items, list_line_items, get as get_row}
use invoice_payment_service.InvoiceService
use invoice_payment_service.InvoiceService.{void_invoice, mark_uncollectible}
use invoice_payment_service.PaymentService.Types.{World, PayOutcome}
use invoice_payment_service.PaymentService.Pay.{nobody}
use invoice_payment_service.Auth.{require_api_key}
use invoice_payment_service.Tenants.{SameForOthers, SameForOthers-refl, InvoiceIdsDiffer}
use invoice_payment_service.Tenants.Services.{
  create_key-SameForOthers, revoke-SameForOthers, create_customer-SameForOthers,
  create_invoice-SameForOthers, transition-SameForOthers, register_endpoint-SameForOthers,
  redeliver-SameForOthers,
}
use invoice_payment_service.Tenants.Payments.{pay-SameForOthers}
use invoice_payment_service.Routes.{header_key, pay_route}
use invoice_payment_service.Routes.Responses.{respond_pay}
use invoice_payment_service.Routes.Handlers.{
  Outside, create_api_key, list_api_keys, revoke_api_key, create_customer, get_customer,
  list_customers, create_invoice, get_invoice, list_invoices, finalize_invoice, void_route,
  uncollectible_route, pay_invoice_route, get_attempt_route, create_endpoint, list_events_route,
  list_deliveries_route, redeliver_route,
}
use invoice_payment_service.Routes.App.{
  ApiKeyRoute, post_api_key, get_api_keys, delete_api_key, api_keys_router, CustomerRoute,
  post_customer, get_customers, get_one_customer, customers_router, InvoiceRoute, post_invoice,
  get_invoices, get_one_invoice, post_finalize, post_void, post_mark_uncollectible, post_pay,
  get_payment, invoices_router, WebhookRoute, post_endpoint, get_events, get_deliveries,
  post_redeliver, webhooks_router, Route, api_keys, customers, invoices, webhooks, protected_route,
  v1, serve,
}

pub respond_pay_world : (r : Result PayOutcome AppError × World) → (respond_pay r).1 ≡ r.1
respond_pay_world (ok (status, a), w) = refl
respond_pay_world (err e, w) = refl

-- No other request or task does anything while the request runs.
abbrev pub IsAlone : Outside → Type 0
IsAlone o = (o.others ≡ nobody) × (o.race ≡ λ db. db)

module _ (o : Outside) (b : Uuid) (w : World) where
  pay_route-SameForOthers :
      (id : Uuid) (header : Option String) (req : PayRequest)
      → InvoiceIdsDiffer w.db
      → SameForOthers b w.db (pay_route o.crates o.psp o.pay_ids nobody b id header req w).1.db
  unfolding pay_route
  pay_route-SameForOthers id header req one = elim (Option-cases (header_key header)) [
    | inl missing ↦ rw (missing, pay_route) (SameForOthers-refl b w.db)
    | inr (key, given) ↦
        rw (given, pay_route) (pay-SameForOthers o.crates o.psp o.pay_ids b id key req w one)
  ]

  got-SameForOthers :
      (id : Uuid) (found : Option Invoice)
      → SameForOthers b w.db
          ((ok_or found (not_found "invoice not found") >>= λ invoice. do
            items ← query (list_line_items id)
            pure (from_parts invoice items))
            w.db).1
  unfolding list_line_items
  got-SameForOthers id none = SameForOthers-refl b w.db
  got-SameForOthers id (some invoice) = SameForOthers-refl b w.db

  get-SameForOthers : (id : Uuid) → SameForOthers b w.db (InvoiceService.get b id w.db).1
  unfolding InvoiceService.get get_row
  get-SameForOthers id = got-SameForOthers id (find (invoice_of b id) w.db.invoices)

  api_keys-SameForOthers :
      (route : ApiKeyRoute) → SameForOthers b w.db (api_keys_router o b route w).1.db
  unfolding api_keys_router create_api_key list_api_keys revoke_api_key
  api_keys-SameForOthers (post_api_key req) =
      create_key-SameForOthers b o.crates.sha256 o.key_random o.new_id o.now req.name req.env w.db
  api_keys-SameForOthers get_api_keys = SameForOthers-refl b w.db
  api_keys-SameForOthers (delete_api_key id) = revoke-SameForOthers b o.now id w.db

  customers-SameForOthers :
      (route : CustomerRoute) → SameForOthers b w.db (customers_router o b route w).1.db
  unfolding customers_router create_customer get_customer list_customers
  customers-SameForOthers (post_customer req) =
      create_customer-SameForOthers b o.citext_eq o.new_id o.now req w.db
  customers-SameForOthers (get_customers limit cursor) = SameForOthers-refl b w.db
  customers-SameForOthers (get_one_customer id) = SameForOthers-refl b w.db

  moved_alone :
      (id : Uuid) (to : InvoiceState)
      → IsAlone o
      → SameForOthers b w.db (InvoiceService.transition o.race b id to o.now w.db).1
  moved_alone id to alone =
      subst (λ race. SameForOthers b w.db (InvoiceService.transition race b id to o.now w.db).1)
        (sym alone.1) (transition-SameForOthers b id to o.now w.db)

  invoices-SameForOthers :
      (route : InvoiceRoute)
      → IsAlone o
      → InvoiceIdsDiffer w.db
      → sum_items o.new_invoice.invoice_id w.db ≡ pos 0
      → SameForOthers b w.db (invoices_router o b route w).1.db
  unfolding invoices_router create_invoice get_invoice list_invoices finalize_invoice void_route
      uncollectible_route pay_invoice_route get_attempt_route void_invoice mark_uncollectible
      InvoiceService.finalize
  invoices-SameForOthers (post_invoice req) alone one new =
      create_invoice-SameForOthers b o.new_invoice req w.db new
  invoices-SameForOthers (get_invoices state limit cursor) alone one new = SameForOthers-refl b w.db
  invoices-SameForOthers (get_one_invoice id) alone one new = get-SameForOthers id
  invoices-SameForOthers (post_finalize id) alone one new = moved_alone id open_ alone
  invoices-SameForOthers (post_void id) alone one new = moved_alone id void alone
  invoices-SameForOthers (post_mark_uncollectible id) alone one new =
      moved_alone id uncollectible alone
  invoices-SameForOthers (post_pay id key_header req) alone one new =
      subst (λ v. SameForOthers b w.db v.db)
        (sym
          (respond_pay_world (pay_route o.crates o.psp o.pay_ids o.others b id key_header req w)))
        (subst
          (λ others.
            SameForOthers b w.db
              (pay_route o.crates o.psp o.pay_ids others b id key_header req w).1.db)
          (sym alone.0) (pay_route-SameForOthers id key_header req one))
  invoices-SameForOthers (get_payment id attempt_id) alone one new = SameForOthers-refl b w.db

  webhooks-SameForOthers :
      (route : WebhookRoute) → SameForOthers b w.db (webhooks_router o b route w).1.db
  unfolding webhooks_router create_endpoint list_events_route list_deliveries_route redeliver_route
  webhooks-SameForOthers (post_endpoint req) =
      register_endpoint-SameForOthers b o.hex o.new_id o.secret req w.db
  webhooks-SameForOthers (get_events limit cursor) = SameForOthers-refl b w.db
  webhooks-SameForOthers (get_deliveries status) = SameForOthers-refl b w.db
  webhooks-SameForOthers (post_redeliver id) = redeliver-SameForOthers b o.now id w.db

  -- One route of an authenticated business.
  protected-SameForOthers :
      (route : Route)
      → IsAlone o
      → InvoiceIdsDiffer w.db
      → sum_items o.new_invoice.invoice_id w.db ≡ pos 0
      → SameForOthers b w.db (protected_route o b route w).1.db
  unfolding protected_route
  protected-SameForOthers (api_keys route) alone one new = api_keys-SameForOthers route
  protected-SameForOthers (customers route) alone one new = customers-SameForOthers route
  protected-SameForOthers (invoices route) alone one new =
      invoices-SameForOthers route alone one new
  protected-SameForOthers (webhooks route) alone one new = webhooks-SameForOthers route

-- A request that the middleware lets through for a business leaves the rows of every other business
-- as they are, in every table that has a column for the business and whatever the route: if the ids of the invoices differ, the id drawn
-- for a new invoice has no line items yet, and no other request runs at the same time.
pub serve-SameForOthers :
    (o : Outside) (b : Uuid) (authorization : Option String) (route : Route) (w : World)
    → require_api_key o.crates.sha256 o.now authorization w.db ≡ ok b
    → IsAlone o
    → InvoiceIdsDiffer w.db
    → sum_items o.new_invoice.invoice_id w.db ≡ pos 0
    → SameForOthers b w.db (serve o (v1 authorization route) w).1.db
unfolding serve
serve-SameForOthers o b authorization route w through alone one new =
    rw through (protected-SameForOthers o b w route alone one new)
