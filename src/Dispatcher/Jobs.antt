-- ===== src/Dispatcher/Jobs.antt =====
-- The jobs that the rows of a claimed batch become.
use mathlib.Core.Path.{subst}
use invoice_payment_service.Prelude.{
  ℕ, ◌+◌, ◌≤◌, ◌≡◌, refl, sym, ◌∙◌, ap, Bool, true, false, not, ◌&&◌, Option, none, some, List, [],
  ◌∷◌, arith, ◌==◌, ==_iff, ==_self, Bool-cases, inl, inr,
}
use invoice_payment_service.Domain.{Uuid, Time}
use invoice_payment_service.Domain.Webhook.{WebhookDelivery, WebhookEvent, WebhookEndpoint}
use invoice_payment_service.Table.{where_, find, exists, count, update}
use invoice_payment_service.Table.Claimed
use invoice_payment_service.Table.Laws.{exists_of_find}
use invoice_payment_service.Reconciler.{is_in}
use invoice_payment_service.Dispatcher.{leased, picked, delivery_is, delivery_id}
use invoice_payment_service.Dispatcher.Batch.{Job, join_rows, joined, event_is, endpoint_is}
use invoice_payment_service.Dispatcher.Settling.{job_is}

module _ (es : List WebhookEvent) (eps : List WebhookEndpoint) (id : Uuid) where
  exists_joined :
      (q : Job → Bool) (d : WebhookDelivery) (oe : Option WebhookEvent)
      (oep : Option WebhookEndpoint) (rest : List Job)
      → exists q rest ≡ true
      → exists q (joined d oe oep rest) ≡ true
  unfolding exists
  exists_joined q d (some e) (some ep) rest h = ground arith
  exists_joined q d (some e) none rest h = h
  exists_joined q d none oep rest h = h

  first_job :
      (d : WebhookDelivery) (e : WebhookEvent) (ep : WebhookEndpoint) (rest : List Job)
      → (d.id == id) ≡ true
      → find (event_is d.event_id) es ≡ some e
      → find (endpoint_is d.endpoint_id) eps ≡ some ep
      → exists
          (job_is id)
          (joined d (find (event_is d.event_id) es) (find (endpoint_is d.endpoint_id) eps) rest)
        ≡ true
  unfolding exists
  first_job d e ep rest mine k l = rw (k, l) (ground arith)

  -- The row of a delivery whose event and endpoint exist becomes a job.
  pub has_job :
      (d : WebhookDelivery) (e : WebhookEvent) (ep : WebhookEndpoint) (rows : List WebhookDelivery)
      → find (delivery_is id) rows ≡ some d
      → find (event_is d.event_id) es ≡ some e
      → find (endpoint_is d.endpoint_id) eps ≡ some ep
      → exists (job_is id) (join_rows es eps rows) ≡ true
  unfolding join_rows find exists
  has_job d e ep [] h k l = absurd cc
  has_job d e ep (r ∷ rows) h k l = elim (Bool-cases (r.id == id)) [
    | inl mine ↦
        let same : r ≡ d = ground arith in
        subst
          (λ x.
            exists (job_is id) (
              joined x (find (event_is x.event_id) es) (find (endpoint_is x.endpoint_id) eps)
                (join_rows es eps rows))
            ≡ true)
          (sym same)
          (first_job d e ep (join_rows es eps rows)
            (exists_of_find (delivery_is id) d (r ∷ rows) h).1 k l)
    | inr other ↦
        exists_joined (job_is id) r (find (event_is r.event_id) es)
          (find (endpoint_is r.endpoint_id) eps) (join_rows es eps rows)
          (has_job d e ep rows (ground arith) k l)
  ]

  abbrev wrong_row : ℕ → WebhookDelivery → Bool
  wrong_row n d = delivery_is id d && not (d.attempts == n)

  abbrev wrong_job : ℕ → Job → Bool
  wrong_job n j = job_is id j && not (j.attempts == n)

  joined_right :
      (n : ℕ) (d : WebhookDelivery) (oe : Option WebhookEvent) (oep : Option WebhookEndpoint)
      (rest : List Job)
      → wrong_row n d ≡ false
      → exists (wrong_job n) rest ≡ false
      → exists (wrong_job n) (joined d oe oep rest) ≡ false
  unfolding exists
  joined_right n d (some e) (some ep) rest right h = ground arith
  joined_right n d (some e) none rest right h = h
  joined_right n d none oep rest right h = h

  pub right_jobs :
      (n : ℕ) (rows : List WebhookDelivery)
      → exists (wrong_row n) rows ≡ false
      → exists (wrong_job n) (join_rows es eps rows) ≡ false
  unfolding join_rows exists
  right_jobs n [] h = refl
  right_jobs n (r ∷ rows) h =
      joined_right n r (find (event_is r.event_id) es) (find (endpoint_is r.endpoint_id) eps)
        (join_rows es eps rows) (ground arith) (right_jobs n rows (ground arith))

-- The claimed rows of a delivery.
module _ (ids : List Uuid) (now : Time) (id : Uuid) (held : is_in ids id ≡ true) where
  abbrev pub claimed_rows : List WebhookDelivery → List WebhookDelivery
  claimed_rows ds = where_ (picked ids) (update (picked ids) (leased now) ds)

  picked_by_id : (r : WebhookDelivery) → (r.id == id) ≡ true → picked ids r ≡ true
  picked_by_id r h = ap (is_in ids) ((==_iff r.id id).0 h) ∙ held

  pub find-leased :
      (d : WebhookDelivery) (ds : List WebhookDelivery)
      → find (delivery_is id) ds ≡ some d
      → find (delivery_is id) (update (picked ids) (leased now) ds) ≡ some (leased now d)
  find-leased =
      Claimed.find-claimed delivery_id (picked ids) (leased now) id (λ r. refl) picked_by_id

  pub find-claimed :
      (d : WebhookDelivery) (ds : List WebhookDelivery)
      → find (delivery_is id) ds ≡ some d
      → find (delivery_is id) (claimed_rows ds) ≡ some (leased now d)
  find-claimed =
      Claimed.find-returned delivery_id (picked ids) (leased now) id (λ r. refl) picked_by_id

  -- Every claimed row of a delivery has the raised number of attempts.
  pub claimed_right :
      (d : WebhookDelivery) (ds : List WebhookDelivery)
      → find (delivery_is id) ds ≡ some d
      → count (delivery_is id) ds ≤ 1
      → exists (λ r. delivery_is id r && not (r.attempts == d.attempts + 1)) (claimed_rows ds)
        ≡ false
  claimed_right d ds found one =
      Claimed.returned_good delivery_id (picked ids) (leased now) id (λ r. refl) picked_by_id
        (λ r. r.attempts == d.attempts + 1) d ds found one (==_self (d.attempts + 1))
