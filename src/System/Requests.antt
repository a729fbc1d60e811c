-- ===== src/System/Requests.antt =====
-- A request of the API (`build_app` of crates/invoice-service/src/lib.rs) as a sequence of transactions,
-- its own and those of the requests and tasks that come in between.
use mathlib.Core.Path.{subst}
use invoice_payment_service.Prelude.{
  ◌≡◌, refl, sym, Option, none, some, Bool-cases, Option-cases, inl, inr,
}
use invoice_payment_service.Errors.{AppError, not_found, Result, ok, err}
use invoice_payment_service.Domain.{Uuid, Time}
use invoice_payment_service.Domain.Invoice.{
  Invoice, InvoiceState, from_parts, open_, void, uncollectible, can_transition_to,
}
use invoice_payment_service.Table.{find}
use invoice_payment_service.Db.{Db, query, pure, ok_or, ◌>>=◌}
use invoice_payment_service.InvoiceRepo.{
  invoice_of, in_state, list_line_items, get as get_row, transition as move_row,
}
use invoice_payment_service.InvoiceService
use invoice_payment_service.InvoiceService.{void_invoice, mark_uncollectible, transition}
use invoice_payment_service.InvoiceService.Transition.{transition_lem, transition_steps, moved}
use invoice_payment_service.PaymentService.Types.{World}
use invoice_payment_service.Auth.{require_api_key}
use invoice_payment_service.Routes.{pay_route}
use invoice_payment_service.Routes.Handlers.{
  Outside, create_api_key, list_api_keys, revoke_api_key, create_customer, get_customer,
  list_customers, create_invoice, get_invoice, list_invoices, finalize_invoice, void_route,
  uncollectible_route, pay_invoice_route, get_attempt_route, create_endpoint, list_events_route,
  list_deliveries_route, redeliver_route,
}
use invoice_payment_service.Routes.App.{
  ApiKeyRoute, post_api_key, get_api_keys, delete_api_key, api_keys_router, CustomerRoute,
  post_customer, get_customers, get_one_customer, customers_router, InvoiceRoute, post_invoice,
  get_invoices, get_one_invoice, post_finalize, post_void, post_mark_uncollectible, post_pay,
  get_payment, invoices_router, WebhookRoute, post_endpoint, get_events, get_deliveries,
  post_redeliver, webhooks_router, Route, api_keys, customers, invoices, webhooks, protected_route,
  AppRequest, healthz, v1, serve,
}
use invoice_payment_service.Routes.Isolation.{respond_pay_world}
use invoice_payment_service.System.{
  creates, moves, adds_customer, adds_key, revokes, registers, redelivers, Txns, here, later,
}
use invoice_payment_service.System.Payments.{Interleaved, pay_route-Txns}

module _ (race : Db → Db) (race_runs : (db : Db) → Txns db (race db)) (b id : Uuid)
    (now : Time) where
  -- The UPDATE, on what the others have left.
  moved-db :
      (from to : InvoiceState) (db : Db)
      → (moved db b id from to now (find (in_state b id from) db.invoices)).1
        ≡ (move_row b id from to now db).1
  unfolding move_row
  moved-db from to db = elim (Option-cases (find (in_state b id from) db.invoices)) [
    | inl missing ↦ rw (missing, move_row) refl
    | inr (r, found) ↦ rw (found, move_row) refl
  ]

  spec-Txns :
      (to : InvoiceState) (db : Db) (found : Option Invoice)
      → Txns db (transition_steps race b id to now found db).1
  spec-Txns to db none = here
  spec-Txns to db (some current) = elim (Bool-cases (can_transition_to current.state to)) [
    | inr illegal ↦ rw illegal here
    | inl legal ↦ rw legal (
        subst (λ d. Txns db d) (sym (moved-db current.state to (race db)))
          (later (race_runs db) (moves b id current.state to now (race db) legal)))
  ]

  transition-Txns : (to : InvoiceState) (db : Db) → Txns db (transition race b id to now db).1
  transition-Txns to db =
      subst (λ r. Txns db r.1) (sym (transition_lem race b id to now db))
        (spec-Txns to db (find (invoice_of b id) db.invoices))

got-Txns :
    (id : Uuid) (found : Option Invoice) (db : Db)
    → Txns db
        ((ok_or found (not_found "invoice not found") >>= λ invoice. do
          items ← query (list_line_items id)
          pure (from_parts invoice items))
          db).1
unfolding list_line_items
got-Txns id none db = here
got-Txns id (some invoice) db = here

get-Txns : (b id : Uuid) (db : Db) → Txns db (InvoiceService.get b id db).1
unfolding InvoiceService.get get_row
get-Txns b id db = got-Txns id (find (invoice_of b id) db.invoices) db

module _ (o : Outside) (others_run : Interleaved o.others)
    (race_runs : (db : Db) → Txns db (o.race db)) (b : Uuid) (w : World) where
  api_keys-Txns : (route : ApiKeyRoute) → Txns w.db (api_keys_router o b route w).1.db
  unfolding api_keys_router create_api_key list_api_keys revoke_api_key
  api_keys-Txns (post_api_key req) =
      later here (adds_key o.crates.sha256 o.key_random o.new_id o.now b req.name req.env w.db)
  api_keys-Txns get_api_keys = here
  api_keys-Txns (delete_api_key id) = later here (revokes o.now b id w.db)

  customers-Txns : (route : CustomerRoute) → Txns w.db (customers_router o b route w).1.db
  unfolding customers_router create_customer get_customer list_customers
  customers-Txns (post_customer req) =
      later here (adds_customer o.citext_eq o.new_id o.now b req w.db)
  customers-Txns (get_customers limit cursor) = here
  customers-Txns (get_one_customer id) = here

  invoices-Txns : (route : InvoiceRoute) → Txns w.db (invoices_router o b route w).1.db
  unfolding invoices_router create_invoice get_invoice list_invoices finalize_invoice void_route
      uncollectible_route pay_invoice_route get_attempt_route void_invoice mark_uncollectible
      InvoiceService.finalize
  invoices-Txns (post_invoice req) = later here (creates o.new_invoice b req w.db)
  invoices-Txns (get_invoices state limit cursor) = here
  invoices-Txns (get_one_invoice id) = get-Txns b id w.db
  invoices-Txns (post_finalize id) = transition-Txns o.race race_runs b id o.now open_ w.db
  invoices-Txns (post_void id) = transition-Txns o.race race_runs b id o.now void w.db
  invoices-Txns (post_mark_uncollectible id) =
      transition-Txns o.race race_runs b id o.now uncollectible w.db
  invoices-Txns (post_pay id key_header req) =
      subst (λ v. Txns w.db v.db)
        (sym
          (respond_pay_world (pay_route o.crates o.psp o.pay_ids o.others b id key_header req w)))
        (pay_route-Txns o.crates o.psp o.pay_ids o.others others_run b id key_header req w)
  invoices-Txns (get_payment id attempt_id) = here

  webhooks-Txns : (route : WebhookRoute) → Txns w.db (webhooks_router o b route w).1.db
  unfolding webhooks_router create_endpoint list_events_route list_deliveries_route redeliver_route
  webhooks-Txns (post_endpoint req) = later here (registers o.hex o.new_id o.secret b req w.db)
  webhooks-Txns (get_events limit cursor) = here
  webhooks-Txns (get_deliveries status) = here
  webhooks-Txns (post_redeliver id) = later here (redelivers o.now b id w.db)

  protected-Txns : (route : Route) → Txns w.db (protected_route o b route w).1.db
  unfolding protected_route
  protected-Txns (api_keys route) = api_keys-Txns route
  protected-Txns (customers route) = customers-Txns route
  protected-Txns (invoices route) = invoices-Txns route
  protected-Txns (webhooks route) = webhooks-Txns route

-- A request of the API, whatever its route and whoever sends it, is a sequence of transactions: its own
-- and, between them, what other requests and tasks do, if that is a sequence of transactions too.
pub serve-Txns :
    (o : Outside) (req : AppRequest) (w : World)
    → Interleaved o.others
    → ((db : Db) → Txns db (o.race db))
    → Txns w.db (serve o req w).1.db
unfolding serve
serve-Txns o healthz w others_run race_runs = here
serve-Txns o (v1 authorization route) w others_run race_runs =
    go (require_api_key o.crates.sha256 o.now authorization w.db) refl
  where
    go :
        (r : Result Uuid AppError)
        → require_api_key o.crates.sha256 o.now authorization w.db ≡ r
        → Txns w.db (serve o (v1 authorization route) w).1.db
    go (ok b) e = rw e (protected-Txns o others_run race_runs b w route)
    go (err e') e = rw e here
