-- ===== src/Service.antt =====
-- The process as a whole: what `main` of crates/invoice-service/src/main.rs puts together from the
-- configuration, with `build_state` and `spawn_background_tasks` of crates/invoice-service/src/lib.rs,
-- and what happens from then on to the database and the outside, as a list of events. Connecting to
-- the database and binding the address are parameters; so are the pauses between two ticks.
pub mod Startup
pub mod Runs
use invoice_payment_service.Prelude.{ℕ, String, List, [], ◌∷◌}
use invoice_payment_service.Config.{ServiceConfig}
use invoice_payment_service.PaymentService.Types.{Crates, Psp, World}
use invoice_payment_service.PspClient.{Exchange}
use invoice_payment_service.PspClient.Client.{ChargeRequest, client_charge}
use invoice_payment_service.Routes.Handlers
use invoice_payment_service.Routes.App.{AppRequest, serve}
use invoice_payment_service.Reconciler
use invoice_payment_service.Reconciler.{TickIds}
use invoice_payment_service.Dispatcher.Batch
use invoice_payment_service.Dispatcher.Batch.{Post, Sends}

-- `struct PspClient`; of its HTTP client, the timeout.
pub record PspClient : Type 0 where
  pub timeout_ms : ℕ
  pub base_url : String

-- `PspClient::new`
abbrev psp_client : String → ℕ → PspClient
psp_client base_url timeout_ms = record { timeout_ms = timeout_ms; base_url = base_url }

-- `struct AppState`; the pool stands for the connection to the database, which is passed along as a
-- value.
pub record AppState (Pool : Type 0) : Type 0 where
  pub pool : Pool
  pub psp : PspClient
  pub config : ServiceConfig

-- `build_state`
abbrev pub build_state : {Pool : Type 0} → Pool → ServiceConfig → AppState Pool
build_state pool config = record {
  pool = pool;
  psp = psp_client config.psp_base_url config.psp_timeout_ms;
  config = config;
}

-- What happens to the process: a request comes in, one of the two timers runs out, or Ctrl-C or SIGTERM
-- arrives. A call of the provider goes through `http`.
pub data Event : Type 0 where
  request : (http : ChargeRequest → Exchange) → Handlers.Outside → AppRequest → Event
  reconciler_timer : (http : ChargeRequest → Exchange) → TickIds → Event
  dispatcher_timer : Batch.Outside → Event
  signal : Event

-- The database with the calls of the provider, and the posts of webhooks so far.
pub record Service : Type 0 where
  pub world : World
  pub posts : List Post

module _ {Pool : Type 0} (crates : Crates) (state : AppState Pool) where
  -- The provider as the service calls it.
  abbrev pub provider : (ChargeRequest → Exchange) → Psp
  provider http = client_charge http state.psp.base_url

  -- The handlers and the tasks get the client and the configuration from the state.
  abbrev pub handled : (ChargeRequest → Exchange) → Handlers.Outside → Handlers.Outside
  handled http o = record o { crates = crates; psp = provider http }

  abbrev pub dispatched : Batch.Outside → Batch.Outside
  dispatched o = record o { max_attempts = state.config.webhook_max_attempts }

  unfoldable pub on_request :
      (ChargeRequest → Exchange) → Handlers.Outside → AppRequest → Service → Service
  on_request http o req s = record s { world = (serve (handled http o) req s.world).1 }

  unfoldable pub on_reconciler_timer : (ChargeRequest → Exchange) → TickIds → Service → Service
  on_reconciler_timer http ids s = record s {
    world = Reconciler.tick crates (provider http) ids s.world;
  }

  unfoldable pub on_dispatcher_timer : Batch.Outside → Service → Service
  on_dispatcher_timer o s =
      let sent : Sends = Batch.tick (dispatched o) (record { db = s.world.db; posts = s.posts }) in
      record s { world = record s.world { db = sent.db }; posts = sent.posts }

  -- The server and the two loops. The signal cancels the token: the server takes no more requests, and
  -- the loops return instead of waiting for their timers.
  unfoldable pub run : List Event → Service → Service
  unfolding on_request on_reconciler_timer on_dispatcher_timer
  run [] s = s
  run (signal ∷ events) s = s
  run (request http o req ∷ events) s = run events (on_request http o req s)
  run (reconciler_timer http ids ∷ events) s = run events (on_reconciler_timer http ids s)
  run (dispatcher_timer o ∷ events) s = run events (on_dispatcher_timer o s)
