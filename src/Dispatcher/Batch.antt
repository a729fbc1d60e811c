-- ===== src/Dispatcher/Batch.antt =====
-- One tick of the dispatcher (`deliver_batch`, `send_one` and the body of the loop of `run` in
-- crates/invoice-service/src/webhooks/dispatcher.rs). The HTTP client, JSON, the clock, the texts of
-- numbers and ids, and HMAC are parameters. The tasks of a batch run one after the other here: each
-- touches the row of its own delivery only.
use invoice_payment_service.Prelude.{ℕ, String, Option, none, some, List, [], ◌∷◌, Bool, ◌==◌}
use invoice_payment_service.Prelude.Int.{ℤ}
use invoice_payment_service.Domain.{Uuid, Time}
use invoice_payment_service.Domain.Webhook.{WebhookEvent, WebhookEndpoint, WebhookDelivery, Payload}
use invoice_payment_service.Table.{where_, find}
use invoice_payment_service.Db.{Db}
use invoice_payment_service.Dispatcher.{Sent, lease, due_ids, picked, record_sent, fan_out}
use invoice_payment_service.Dispatcher.Signing.{signature_header}

-- The request that `send_one` posts.
pub record Post : Type 0 where
  pub url : String
  pub content_type : String
  pub webhook_id : String
  pub webhook_signature : String
  pub body : List ℕ

-- `to_vec` is `serde_json::to_vec` with `unwrap_or_default`. For each delivery, `timestamp` is that of
-- `Utc::now()` when it is sent, `sent_now` the database's time when the end of the send is recorded, and
-- `draw` its random number; `fan_now` and `now` are the database's times of the fan-out and the lease.
pub record Outside : Type 0 where
  pub hmac_sha256 : List ℕ → List ℕ → List ℕ
  pub hex : List ℕ → String
  pub i64_text : ℤ → String
  pub uuid_text : Uuid → String
  pub to_vec : Payload → List ℕ
  pub http : Post → Sent
  pub timestamp : Uuid → ℤ
  pub fan_now : Time
  pub now : Time
  pub sent_now : Uuid → Time
  pub draw : Uuid → ℕ → ℕ
  pub new_delivery_id : Uuid → Uuid → Uuid
  pub max_attempts : ℤ

-- A row of the query that hydrates the batch.
pub record Job : Type 0 where
  pub delivery_id : Uuid
  pub attempts : ℕ
  pub event_id : Uuid
  pub payload : Payload
  pub url : String
  pub secret : List ℕ

-- The database, and the posts so far, the last one first.
pub record Sends : Type 0 where
  pub db : Db
  pub posts : List Post

abbrev pub event_is : Uuid → WebhookEvent → Bool
event_is id e = e.id == id

abbrev pub endpoint_is : Uuid → WebhookEndpoint → Bool
endpoint_is id ep = ep.id == id

abbrev job : WebhookDelivery → WebhookEvent → WebhookEndpoint → Job
job d e ep = record {
  delivery_id = d.id;
  attempts = d.attempts;
  event_id = e.id;
  payload = e.payload;
  url = ep.url;
  secret = ep.secret;
}

abbrev pub joined :
    WebhookDelivery → Option WebhookEvent → Option WebhookEndpoint → List Job → List Job
joined d (some e) (some ep) rest = job d e ep ∷ rest
joined d (some e) none rest = rest
joined d none _ rest = rest

-- The two JOINs on primary keys.
unfoldable pub join_rows :
    List WebhookEvent → List WebhookEndpoint → List WebhookDelivery → List Job
join_rows es eps [] = []
join_rows es eps (d ∷ ds) =
    joined d (find (event_is d.event_id) es) (find (endpoint_is d.endpoint_id) eps)
      (join_rows es eps ds)

-- The query that hydrates the claimed deliveries.
unfoldable pub hydrate : List Uuid → Db → List Job
unfolding join_rows
hydrate ids db = join_rows db.events db.endpoints (where_ (picked ids) db.deliveries)

module _ (o : Outside) where
  -- What `send_one` posts.
  unfoldable pub post_of : Job → Post
  unfolding signature_header
  post_of j =
      let body = o.to_vec j.payload in
      record {
        url = j.url;
        content_type = "application/json";
        webhook_id = o.uuid_text j.event_id;
        webhook_signature =
            signature_header o.hmac_sha256 o.hex o.i64_text j.secret (o.timestamp j.delivery_id)
              body;
        body = body;
      }

  -- `send_one`
  unfoldable pub send_one : Job → Sends → Sends
  unfolding post_of record_sent
  send_one j s =
      let post = post_of j in
      record {
        db =
            record_sent o.max_attempts (o.draw j.delivery_id) (o.sent_now j.delivery_id)
              j.delivery_id j.attempts (o.http post) s.db;
        posts = post ∷ s.posts;
      }

  unfoldable pub send_all : List Job → Sends → Sends
  unfolding send_one
  send_all [] s = s
  send_all (j ∷ js) s = send_all js (send_one j s)

  -- Behind the lease: nothing to do if no delivery was claimed.
  abbrev pub deliver_claimed : List Uuid → Sends → Sends
  deliver_claimed [] s = s
  deliver_claimed (i ∷ ids) s = send_all (hydrate (i ∷ ids) s.db) s

  -- `deliver_batch`
  unfoldable pub deliver_batch : Sends → Sends
  unfolding send_all hydrate lease due_ids
  deliver_batch s = deliver_claimed (due_ids o.now s.db) (record s { db = lease o.now s.db })

  -- What `run` does when its timer has run out.
  unfoldable pub tick : Sends → Sends
  unfolding deliver_batch fan_out
  tick s = deliver_batch (record s { db = fan_out o.new_delivery_id o.fan_now s.db })

-- What ends the wait of the loop in `run`: the shutdown token, or the timer, with what the tick that
-- follows takes from outside.
pub data Wake : Type 0 where
  cancelled : Wake
  elapsed : Outside → Wake

-- `run`
unfoldable pub run : List Wake → Sends → Sends
unfolding tick
run [] s = s
run (cancelled ∷ wakes) s = s
run (elapsed o ∷ wakes) s = run wakes (tick o s)
