-- ===== src/Tests/Story.antt =====
-- The life of one invoice: created, finalized, paid through a provider that does not answer in time,
-- settled by the reconciler, and announced by the dispatcher, among the events of one process.
use invoice_payment_service.Prelude.{◌+◌, String, Option, some, List, [], ◌∷◌, true}
use invoice_payment_service.Prelude.Int.{pos}
use invoice_payment_service.Config.{ServiceConfig}
use invoice_payment_service.Domain.Invoice.{CreateInvoiceRequest}
use invoice_payment_service.Domain.Webhook.{WebhookEndpoint, active}
use invoice_payment_service.Db.{Db}
use invoice_payment_service.PspClient.{Exchange, send_error, answered, ChargeOutcome}
use invoice_payment_service.PspClient.Client.{ChargeRequest}
use invoice_payment_service.Reconciler.{TickIds}
use invoice_payment_service.Dispatcher.{responded}
use invoice_payment_service.Dispatcher.Batch
use invoice_payment_service.Routes.App.{invoices, post_invoice, post_finalize, post_pay, v1}
use invoice_payment_service.System.Invariant.{bare_db}
use invoice_payment_service.Service.{
  AppState, build_state, Event, Service, run, signal, reconciler_timer, dispatcher_timer,
}
use invoice_payment_service.Service
use invoice_payment_service.Tests.{crates, customer, request}
use invoice_payment_service.Tests.Basics.{key}
use invoice_payment_service.Tests.Api
use invoice_payment_service.Tests.Deliveries

abbrev pub endpoint : WebhookEndpoint
endpoint = record {
  id = 80;
  business_id = 1;
  url = "https://ada.example.com/hook";
  secret = 1 ∷ [];
  event_types = [];
  status = active;
}

abbrev pub start : Db
start = bare_db (key ∷ []) (customer ∷ []) (endpoint ∷ [])

abbrev pub started : Service
started = record { world = record { db = start; charges = [] }; posts = [] }

abbrev pub config : ServiceConfig
config = record {
  database_url = "postgres://db/invoices";
  bind_addr = "0.0.0.0:8080";
  psp_base_url = "http://psp:9090";
  psp_timeout_ms = 5000;
  webhook_max_attempts = pos 8;
}

abbrev pub state : AppState Unit
state = build_state tt config

abbrev silent : ChargeRequest → Exchange
silent r = send_error true

abbrev answering : ChargeRequest → Exchange
answering r = answered 200 (some (ChargeOutcome.succeeded "psp-7"))

abbrev two_items : CreateInvoiceRequest
two_items = record {
  customer_id = 5;
  line_items =
      record { description = "Consulting"; quantity = pos 2; unit_amount_cents = pos 1500 }
      ∷ record { description = "Hosting"; quantity = pos 1; unit_amount_cents = pos 1200 }
      ∷ [];
}

abbrev authorization : Option String
authorization = some "Bearer dpk_test_abcdefgh1234"

abbrev pub tick_ids : TickIds
tick_ids = record { event_id = λ a. a + 1000; now = 9000000; finalize_now = 9000001 }

abbrev receiving : Batch.Outside
receiving = record Deliveries.outside {
  http = λ post. responded 204;
  fan_now = 9500000;
  now = 9500000;
}

abbrev creating : Event
creating = Service.request silent Api.outside (v1 authorization (invoices (post_invoice two_items)))

abbrev pub opening : Event
opening = Service.request silent Api.outside (v1 authorization (invoices (post_finalize 60)))

abbrev paying : Event
paying =
    Service.request silent Api.outside
      (v1 authorization (invoices (post_pay 60 (some "key-1") request)))

abbrev pub story : List Event
story =
    creating
    ∷ opening
    ∷ paying
    ∷ reconciler_timer answering tick_ids
    ∷ dispatcher_timer receiving
    ∷ signal
    ∷ creating
    ∷ []

unfoldable pub told : Service
unfolding run
told = run crates state story started
