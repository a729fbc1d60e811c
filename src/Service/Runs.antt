-- ===== src/Service/Runs.antt =====
-- A run of the whole process as a sequence of transactions.
use invoice_payment_service.Prelude.{List, [], ◌∷◌}
use invoice_payment_service.Table.Every.{Every}
use invoice_payment_service.Db.{Db}
use invoice_payment_service.PaymentService.Types.{Crates}
use invoice_payment_service.PspClient.{Exchange}
use invoice_payment_service.PspClient.Client.{ChargeRequest}
use invoice_payment_service.Routes.Handlers
use invoice_payment_service.Routes.App.{AppRequest}
use invoice_payment_service.Reconciler.{TickIds}
use invoice_payment_service.Dispatcher.Batch
use invoice_payment_service.System.{Txns, here}
use invoice_payment_service.System.Attempts.{AttemptIdsDiffer}
use invoice_payment_service.System.Payments.{Interleaved, Txns-trans}
use invoice_payment_service.System.Requests.{serve-Txns}
use invoice_payment_service.System.Background.{tick-Txns, dispatch-Txns, Txns-AttemptIdsDiffer}
use invoice_payment_service.Service.{
  AppState, Event, request, reconciler_timer, dispatcher_timer, signal, Service, provider, handled,
  dispatched, on_request, on_reconciler_timer, on_dispatcher_timer, run,
}

-- What the others do while a request runs are transactions.
abbrev pub IsInterleaved : Event → Type 0
IsInterleaved (request http o req) = Interleaved o.others × ((db : Db) → Txns db (o.race db))
IsInterleaved _ = Unit

module _ {Pool : Type 0} (crates : Crates) (state : AppState Pool) where
  request-Txns :
      (http : ChargeRequest → Exchange) (o : Handlers.Outside) (req : AppRequest) (s : Service)
      → Interleaved o.others
      → ((db : Db) → Txns db (o.race db))
      → Txns s.world.db (on_request crates state http o req s).world.db
  unfolding on_request
  request-Txns http o req s others_run race_runs =
      serve-Txns (handled crates state http o) req s.world others_run race_runs

  reconciler-Txns :
      (http : ChargeRequest → Exchange) (ids : TickIds) (s : Service)
      → AttemptIdsDiffer s.world.db.attempts
      → Txns s.world.db (on_reconciler_timer crates state http ids s).world.db
  unfolding on_reconciler_timer
  reconciler-Txns http ids s one = tick-Txns crates (provider crates state http) ids s.world one

  dispatcher-Txns :
      (o : Batch.Outside) (s : Service)
      → Txns s.world.db (on_dispatcher_timer crates state o s).world.db
  unfolding on_dispatcher_timer
  dispatcher-Txns o s =
      dispatch-Txns (dispatched crates state o) (record { db = s.world.db; posts = s.posts })

  -- Whatever events follow one another, requests of any route from anyone and timers of the two
  -- background tasks, up to the signal that ends them, a run of the process is a sequence of
  -- transactions, if the ids of attempts differ at the start and what others do while a request runs
  -- are transactions, too.
  pub run-Txns :
      (events : List Event) (s : Service)
      → Every IsInterleaved events
      → AttemptIdsDiffer s.world.db.attempts
      → Txns s.world.db (run crates state events s).world.db
  unfolding run
  run-Txns [] s ok_ one = here
  run-Txns (signal ∷ events) s ok_ one = here
  run-Txns (request http o req ∷ events) s ((others_run, race_runs), rest) one =
      let first = request-Txns http o req s others_run race_runs in
      Txns-trans first (
        run-Txns events (on_request crates state http o req s) rest
          (Txns-AttemptIdsDiffer first one))
  run-Txns (reconciler_timer http ids ∷ events) s (u, rest) one =
      let first = reconciler-Txns http ids s one in
      Txns-trans first (
        run-Txns events (on_reconciler_timer crates state http ids s) rest
          (Txns-AttemptIdsDiffer first one))
  run-Txns (dispatcher_timer o ∷ events) s (u, rest) one =
      let first = dispatcher-Txns o s in
      Txns-trans first (
        run-Txns events (on_dispatcher_timer crates state o s) rest
          (Txns-AttemptIdsDiffer first one))
