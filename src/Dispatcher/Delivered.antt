-- ===== src/Dispatcher/Delivered.antt =====
-- Every delivery that a batch claims is settled when the batch is over.
use mathlib.Core.Path.{subst}
use invoice_payment_service.Prelude.{
  ℕ, ◌+◌, ◌≤◌, ◌≡◌, refl, sym, ◌∙◌, true, false, not, ◌&&◌, some, List, [], ◌∷◌, arith, ◌==◌,
  ==_iff, Bool-cases, ◌⊎◌, inl, inr,
}
use invoice_payment_service.Domain.{Uuid}
use invoice_payment_service.Domain.Webhook.{WebhookDelivery, WebhookEvent, WebhookEndpoint}
use invoice_payment_service.Table.{find, exists, count}
use invoice_payment_service.Db.{Db}
use invoice_payment_service.Reconciler.{is_in}
use invoice_payment_service.Dispatcher.{due_ids, lease, leased, delivery_is, Sent, record_sent}
use invoice_payment_service.Dispatcher.Retry.{Settled, record_sent-Settled}
use invoice_payment_service.Dispatcher.Batch.{
  Outside, Job, Sends, send_one, send_all, post_of, hydrate, join_rows, event_is, endpoint_is,
  deliver_batch, deliver_claimed,
}
use invoice_payment_service.Dispatcher.Settling.{record_sent-Writes, find_apart, job_is}
use invoice_payment_service.Dispatcher.Jobs.{
  has_job, right_jobs, claimed_rows, find-leased, find-claimed, claimed_right,
}

-- A batch of jobs settles the delivery of each.
module _ (o : Outside) (drawn : (i : Uuid) (n : ℕ) → o.draw i n ≤ n) (id : Uuid) (start : Db)
    (n : ℕ) where
  abbrev Done : Db → Type 0
  Done db = Settled o.max_attempts (o.draw id) (o.sent_now id) (drawn id) id start n db

  abbrev Found : Db → Type 0
  Found db = (d : WebhookDelivery) × (find (delivery_is id) db.deliveries ≡ some d)

  send_other :
      (j : Job) (s : Sends)
      → (j.delivery_id == id) ≡ false
      → find (delivery_is id) (send_one o j s).db.deliveries ≡ find (delivery_is id) s.db.deliveries
  unfolding send_one
  send_other j s other =
      let (f, keep, pair, write) =
        record_sent-Writes o.max_attempts (o.draw j.delivery_id) (o.sent_now j.delivery_id)
          j.delivery_id j.attempts (o.http (post_of o j)) in
      rw (write s.db) (find_apart id j.delivery_id f s.db.deliveries other keep)

  recorded-Done :
      (i : Uuid) (m : ℕ) (sent : Sent) (db : Db)
      → i ≡ id
      → m ≡ n
      → Found db
      → Done (record_sent o.max_attempts (o.draw i) (o.sent_now i) i m sent db)
  recorded-Done i m sent db own right (d, found) =
      rw (own, right)
        (record_sent-Settled o.max_attempts (o.draw id) (o.sent_now id) (drawn id) id db d found n
          sent)

  send_own :
      (j : Job) (s : Sends)
      → j.delivery_id ≡ id
      → j.attempts ≡ n
      → Found s.db
      → Done (send_one o j s).db
  unfolding send_one
  send_own j s own right found =
      recorded-Done j.delivery_id j.attempts (o.http (post_of o j)) s.db own right found

  send_all-Done :
      (js : List Job) (s : Sends)
      → exists (λ j. job_is id j && not (j.attempts == n)) js ≡ false
      → Found s.db
      → (exists (job_is id) js ≡ true) ⊎ Done s.db
      → Done (send_all o js s).db
  unfolding send_all exists
  send_all-Done [] s right found (inl some_job) = absurd cc
  send_all-Done [] s right found (inr done) = done
  send_all-Done (j ∷ js) s right (d, found) todo = elim (Bool-cases (j.delivery_id == id)) [
    | inl own ↦
        let done : Done (send_one o j s).db =
          send_own j s ((==_iff j.delivery_id id).0 own) ((==_iff j.attempts n).0 (ground arith))
            (d, found) in
        send_all-Done js (send_one o j s) (ground arith) (done.0, done.1) (inr done)
    | inr other ↦
        send_all-Done js (send_one o j s) (ground arith) (d, send_other j s other ∙ found)
          (elim todo [
            | inl some_job ↦ inl (ground arith)
            | inr (x, f, unlocked, ends) ↦ inr (x, send_other j s other ∙ f, unlocked, ends)
          ])
  ]

claimed_nonempty :
    (o : Outside) (ids : List Uuid) (id : Uuid) (held : is_in ids id ≡ true) (s : Sends)
    → deliver_claimed o ids s ≡ send_all o (hydrate ids s.db) s
unfolding is_in
claimed_nonempty o [] id held s = absurd cc
claimed_nonempty o (i ∷ ids) id held s = refl

-- When a batch is over, every delivery that it claimed, and whose event and endpoint exist, is
-- unlocked, and has succeeded, is dead, or has failed with its raised number of attempts below the
-- budget and is due again within the hour: if the ids of deliveries differ and no random delay exceeds
-- its ceiling, whatever the receivers answer.
pub deliver_batch-Settled :
    (o : Outside) (drawn : (i : Uuid) (n : ℕ) → o.draw i n ≤ n) (s : Sends) (id : Uuid)
    (d : WebhookDelivery) (e : WebhookEvent) (ep : WebhookEndpoint)
    → find (delivery_is id) s.db.deliveries ≡ some d
    → count (delivery_is id) s.db.deliveries ≤ 1
    → find (event_is d.event_id) s.db.events ≡ some e
    → find (endpoint_is d.endpoint_id) s.db.endpoints ≡ some ep
    → is_in (due_ids o.now s.db) id ≡ true
    → Settled o.max_attempts
        (o.draw id)
        (o.sent_now id)
        (drawn id)
        id
        s.db
        (d.attempts + 1)
        (deliver_batch o s).db
unfolding deliver_batch lease hydrate
deliver_batch-Settled o drawn s id d e ep found one event endpoint held =
    let ids = due_ids o.now s.db in
    let rows = claimed_rows ids o.now id held s.db.deliveries in
    let jobs = join_rows s.db.events s.db.endpoints rows in
    subst
      (λ t.
        Settled o.max_attempts (o.draw id) (o.sent_now id) (drawn id) id s.db (d.attempts + 1) t.db)
      (sym (claimed_nonempty o (due_ids o.now s.db) id held (record s { db = lease o.now s.db })))
      (send_all-Done o drawn id s.db (d.attempts + 1) jobs (record s { db = lease o.now s.db })
        (right_jobs s.db.events s.db.endpoints id (d.attempts + 1) rows
          (claimed_right ids o.now id held d s.db.deliveries found one))
        (leased o.now d, find-leased ids o.now id held d s.db.deliveries found)
        (inl (
          has_job s.db.events s.db.endpoints id (leased o.now d) e ep rows
            (find-claimed ids o.now id held d s.db.deliveries found) event endpoint)))
