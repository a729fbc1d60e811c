-- ===== src/Service/Startup.antt =====
-- Startup (`main` of crates/invoice-service/src/main.rs): the configuration, the database, the state,
-- the background tasks and the listener, in this order. The database and the network are parameters.
use invoice_payment_service.Prelude.{ℕ, String, Option}
use invoice_payment_service.Prelude.Int.{ℤ}
use invoice_payment_service.Errors.{Result, ok, err}
use invoice_payment_service.Config.{ServiceConfig, from_env}
use invoice_payment_service.Service.{AppState, build_state}

-- `SEND_TIMEOUT`, in milliseconds
abbrev send_timeout_ms : ℕ
send_timeout_ms = 10000

-- `struct Dispatcher`; of its HTTP client, the timeout.
pub record Dispatcher (Pool : Type 0) : Type 0 where
  pub pool : Pool
  pub timeout_ms : ℕ
  pub max_attempts : ℤ

-- `Dispatcher::new`
abbrev new_dispatcher : {Pool : Type 0} → Pool → ℤ → Dispatcher Pool
new_dispatcher pool max_attempts = record {
  pool = pool;
  timeout_ms = send_timeout_ms;
  max_attempts = max_attempts;
}

-- What `spawn_background_tasks` hands to the two tasks.
pub record Tasks (Pool : Type 0) : Type 0 where
  pub dispatcher : Dispatcher Pool
  pub reconciler : AppState Pool

-- `spawn_background_tasks`
abbrev spawn_background_tasks : {Pool : Type 0} → AppState Pool → Tasks Pool
spawn_background_tasks state = record {
  dispatcher = new_dispatcher state.pool state.config.webhook_max_attempts;
  reconciler = state;
}

-- What `main` has running when it serves.
pub record Started (Pool Listener : Type 0) : Type 0 where
  pub state : AppState Pool
  pub tasks : Tasks Pool
  pub listener : Listener

module _ {Pool Listener : Type 0} (connect : String → Result Pool String)
    (bind : String → Result Listener String) where
  abbrev listening :
      AppState Pool → Tasks Pool → Result Listener String → Result (Started Pool Listener) String
  listening state tasks (err e) = err e
  listening state tasks (ok listener) =
      ok (record { state = state; tasks = tasks; listener = listener })

  abbrev connected : ServiceConfig → Result Pool String → Result (Started Pool Listener) String
  connected config (err e) = err e
  connected config (ok pool) =
      let state = build_state pool config in
      listening state (spawn_background_tasks state) (bind config.bind_addr)

  abbrev configured : Result ServiceConfig String → Result (Started Pool Listener) String
  configured (err e) = err e
  configured (ok config) = connected config (connect config.database_url)

  -- `main` up to `axum::serve`
  unfoldable pub start : (String → Option String) → Result (Started Pool Listener) String
  unfolding from_env
  start var = configured (from_env var)
