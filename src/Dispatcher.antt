-- ===== src/Dispatcher.antt =====
-- The webhook dispatcher (crates/invoice-service/src/webhooks/dispatcher.rs): the fan-out of events
-- to deliveries, the lease of a batch, and what a send records. Dispatcher/Batch.antt has the sends of
-- a batch, the tick and the loop.
pub mod Pairs
pub mod FanOut
pub mod Retry
pub mod Signing
pub mod Batch
pub mod Leases
pub mod Held
pub mod Settling
pub mod Jobs
pub mod Delivered
pub mod Runs
use invoice_payment_service.Prelude.{
  ℕ, ◌+◌, ◌-◌, ◌*◌, ◌%◌, ◌^◌, min, max, String, Bool, true, false, not, ◌&&◌, ◌||◌, Option, none,
  some, List, [], ◌∷◌, map, take, leb, ltb, ◌==◌, str_eq, if◌then◌else◌,
}
use invoice_payment_service.Prelude.Int.{ℤ, pos, leb_ℤ}
use invoice_payment_service.Domain.{Uuid, Time, seconds}
use invoice_payment_service.Domain.Webhook.{
  WebhookEvent, WebhookEndpoint, EndpointStatus, active, disabled, WebhookDelivery, DeliveryStatus,
  pending, in_flight, succeeded, failed, dead,
}
use invoice_payment_service.Table.{where_, exists, update, insert, order_by}
use invoice_payment_service.Db.{Db}
use invoice_payment_service.Reconciler.{is_in}

-- `BATCH`, `BACKOFF_BASE_SECS` and `BACKOFF_CAP_SECS`
abbrev pub batch : ℕ
batch = 50

abbrev backoff_base_secs : ℕ
backoff_base_secs = 10

abbrev backoff_cap_secs : ℕ
backoff_cap_secs = 3600

-- `e.event_type = ANY(ep.event_types)`
unfoldable any_type : String → List String → Bool
any_type t [] = false
any_type t (u ∷ us) = str_eq t u || any_type t us

abbrev pub is_active : EndpointStatus → Bool
is_active active = true
is_active disabled = false

-- `cardinality(ep.event_types) = 0 OR …`
abbrev subscribes : List String → String → Bool
subscribes [] t = true
subscribes (u ∷ us) t = any_type t (u ∷ us)

-- The join condition of `fan_out`.
unfoldable pub matches : WebhookEvent → WebhookEndpoint → Bool
unfolding any_type
matches e ep =
    ep.business_id == e.business_id
    && (is_active ep.status && subscribes ep.event_types e.event_type)

-- `e.created_at > now() - interval '1 hour'`
abbrev pub is_recent : Time → WebhookEvent → Bool
is_recent now e = ltb now (e.created_at + seconds 3600)

-- The unique index on (event_id, endpoint_id).
abbrev pub pair_is : Uuid → Uuid → WebhookDelivery → Bool
pair_is event_id endpoint_id d = d.event_id == event_id && d.endpoint_id == endpoint_id

abbrev pub new_delivery : Uuid → Time → WebhookEvent → WebhookEndpoint → WebhookDelivery
new_delivery id now e ep = record {
  id = id;
  event_id = e.id;
  endpoint_id = ep.id;
  business_id = e.business_id;
  status = pending;
  attempts = 0;
  next_attempt_at = now;
  locked_until = none;
  last_status_code = none;
  last_error = none;
  last_attempt_at = none;
  created_at = now;
}

-- INSERT … ON CONFLICT (event_id, endpoint_id) DO NOTHING, of one row.
unfoldable pub insert_delivery : WebhookDelivery → List WebhookDelivery → List WebhookDelivery
insert_delivery d ds = if exists (pair_is d.event_id d.endpoint_id) ds then ds else insert d ds

module _ (new_id : Uuid → Uuid → Uuid) (now : Time) where
  -- One event against the endpoints.
  unfoldable pub fan_event :
      WebhookEvent → List WebhookEndpoint → List WebhookDelivery → List WebhookDelivery
  unfolding insert_delivery matches
  fan_event e [] ds = ds
  fan_event e (ep ∷ eps) ds =
      fan_event e eps (
        if matches e ep then insert_delivery (new_delivery (new_id e.id ep.id) now e ep) ds else ds)

  unfoldable pub fan_events :
      List WebhookEvent → List WebhookEndpoint → List WebhookDelivery → List WebhookDelivery
  unfolding fan_event
  fan_events [] eps ds = ds
  fan_events (e ∷ es) eps ds =
      fan_events es eps (if is_recent now e then fan_event e eps ds else ds)

  -- `fan_out`. The ids of `gen_random_uuid` are taken to be new.
  unfoldable pub fan_out : Db → Db
  unfolding fan_events
  fan_out db = record db { deliveries = fan_events db.events db.endpoints db.deliveries }

abbrev lock_expired : Time → Option Time → Bool
lock_expired now none = false
lock_expired now (some t) = ltb t now

-- The WHERE of the lease in `deliver_batch`.
abbrev is_due_status : Time → DeliveryStatus → WebhookDelivery → Bool
is_due_status now pending d = leb d.next_attempt_at now
is_due_status now failed d = leb d.next_attempt_at now
is_due_status now in_flight d = lock_expired now d.locked_until
is_due_status now _ d = false

abbrev pub is_due : Time → WebhookDelivery → Bool
is_due now d = is_due_status now d.status d

abbrev pub next_before : WebhookDelivery → WebhookDelivery → Bool
next_before a b = ltb a.next_attempt_at b.next_attempt_at

abbrev pub delivery_id : WebhookDelivery → Uuid
delivery_id d = d.id

unfoldable pub due_ids : Time → Db → List Uuid
due_ids now db =
    map delivery_id (take batch (order_by next_before (where_ (is_due now) db.deliveries)))

abbrev pub leased : Time → WebhookDelivery → WebhookDelivery
leased now d = record d {
  status = in_flight;
  attempts = d.attempts + 1;
  locked_until = some (now + seconds 30);
  last_attempt_at = some now;
}

abbrev pub picked : List Uuid → WebhookDelivery → Bool
picked ids d = is_in ids d.id

-- The UPDATE of `deliver_batch`.
unfoldable pub lease : Time → Db → Db
unfolding due_ids
lease now db =
    let ids = due_ids now db in
    record db { deliveries = update (picked ids) (leased now) db.deliveries }

abbrev pub delivery_is : Uuid → WebhookDelivery → Bool
delivery_is id d = d.id == id

abbrev pub succeeded_delivery : ℕ → WebhookDelivery → WebhookDelivery
succeeded_delivery code d = record d {
  status = succeeded;
  locked_until = none;
  last_status_code = some code;
}

-- `mark_succeeded`
unfoldable pub mark_succeeded : Uuid → ℕ → Db → Db
mark_succeeded id code db = record db {
  deliveries = update (delivery_is id) (succeeded_delivery code) db.deliveries;
}

abbrev pub dead_delivery : Option ℕ → String → WebhookDelivery → WebhookDelivery
dead_delivery code error d = record d {
  status = dead;
  locked_until = none;
  last_status_code = code;
  last_error = some error;
}

abbrev pub failed_delivery : Time → Option ℕ → String → WebhookDelivery → WebhookDelivery
failed_delivery next code error d = record d {
  status = failed;
  next_attempt_at = next;
  locked_until = none;
  last_status_code = code;
  last_error = some error;
}

-- `1u64 << n`; a release build masks the shift to six bits.
abbrev shl_one : ℕ → ℕ
shl_one n = 2 ^ (n % 64)

-- `u64::saturating_mul`
abbrev saturating_mul : ℕ → ℕ → ℕ
saturating_mul a b = min (a * b) (2 ^ 64 - 1)

-- The upper end of the random delay, in seconds.
unfoldable pub ceiling : ℕ → ℕ
ceiling attempts =
    let exp = saturating_mul backoff_base_secs (shl_one (max attempts 1 - 1)) in
    max (min exp backoff_cap_secs) 1

-- `mark_failed`; `draw` is the random number that `gen_range(0..=ceiling)` gives.
unfoldable pub mark_failed :
    (max_attempts : ℤ) (draw : ℕ → ℕ) (now : Time) → Uuid → ℕ → Option ℕ → String → Bool → Db → Db
mark_failed max_attempts draw now id attempts code error non_retryable db =
    if non_retryable || leb_ℤ max_attempts (pos attempts)
    then record db { deliveries = update (delivery_is id) (dead_delivery code error) db.deliveries }
    else record db {
      deliveries =
          update (delivery_is id)
            (failed_delivery (now + seconds (draw (ceiling attempts))) code error) db.deliveries;
    }

-- How an HTTP request ends: a status, or a transport error.
pub data Sent : Type 0 where
  responded : ℕ → Sent
  transport_error : String → Sent

-- 4xx other than 408 and 429.
abbrev pub non_retryable : ℕ → Bool
non_retryable code = leb 400 code && (ltb code 500 && (not (code == 408) && not (code == 429)))

-- What `send_one` records of the answer.
unfoldable pub record_sent :
    (max_attempts : ℤ) (draw : ℕ → ℕ) (now : Time) → Uuid → ℕ → Sent → Db → Db
unfolding mark_failed mark_succeeded
record_sent max_attempts draw now id attempts (responded code) db =
    if leb 200 code && ltb code 300
    then mark_succeeded id code db
    else mark_failed max_attempts draw now id attempts (some code) "non-2xx response"
        (non_retryable code) db
record_sent max_attempts draw now id attempts (transport_error e) db =
    mark_failed max_attempts draw now id attempts none e false db
