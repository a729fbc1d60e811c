-- ===== src/Dispatcher/Settling.antt =====
-- What a batch leaves: every delivery that it sent is settled, in whatever order the sends end.
use mathlib.Core.List.{Permᴰ}
use invoice_payment_service.Prelude.{
  ℕ, ◌+◌, ◌≤◌, ◌≡◌, refl, sym, ◌∙◌, ap, Bool, false, ◌&&◌, ◌||◌, Option, none, some, String, List,
  [], ◌∷◌, arith, ◌==◌, ==_self, Bool-cases, inl, inr, leb, ltb,
}
use invoice_payment_service.Prelude.Int.{ℤ, pos, leb_ℤ}
use invoice_payment_service.Domain.{Uuid, Time, seconds}
use invoice_payment_service.Domain.Webhook.{WebhookDelivery}
use invoice_payment_service.Table.{find, count, update, amend}
use invoice_payment_service.Db.{Db}
use invoice_payment_service.Dispatcher.{
  delivery_is, mark_succeeded, mark_failed, Sent, responded, transport_error, record_sent,
  succeeded_delivery, dead_delivery, failed_delivery, non_retryable, ceiling,
}
use invoice_payment_service.Dispatcher.Batch.{Outside, Job, Sends, send_one, send_all, post_of}

-- What a send writes is an update of the row of its delivery that keeps the id, the event and the
-- endpoint.
module _ (max_attempts : ℤ) (draw : ℕ → ℕ) (now : Time) (id : Uuid) where
  abbrev Writes : (Db → Db) → Type 0
  Writes step =
      (f : WebhookDelivery → WebhookDelivery) × ((r : WebhookDelivery) → (f r).id ≡ r.id)
      × ((r : WebhookDelivery)
          → ((f r).event_id ≡ r.event_id) × ((f r).endpoint_id ≡ r.endpoint_id))
      × ((db : Db) → step db ≡ record db { deliveries = update (delivery_is id) f db.deliveries })

  mark_failed-Writes :
      (attempts : ℕ) (code : Option ℕ) (error : String) (final : Bool)
      → Writes (mark_failed max_attempts draw now id attempts code error final)
  unfolding mark_failed
  mark_failed-Writes attempts code error final =
      elim (Bool-cases (final || leb_ℤ max_attempts (pos attempts))) [
        | inl over ↦ (dead_delivery code error, λ r. refl, λ r. (refl, refl), λ db. rw over refl)
        | inr left ↦ (
          failed_delivery (now + seconds (draw (ceiling attempts))) code error,
          λ r. refl,
          λ r. (refl, refl),
          λ db. rw left refl,
        )
      ]

  pub record_sent-Writes :
      (attempts : ℕ) (sent : Sent) → Writes (record_sent max_attempts draw now id attempts sent)
  unfolding record_sent mark_succeeded
  record_sent-Writes attempts (responded code) = elim (Bool-cases (leb 200 code && ltb code 300)) [
    | inl success ↦ (succeeded_delivery code, λ r. refl, λ r. (refl, refl), λ db. rw success refl)
    | inr other ↦
        rw other (mark_failed-Writes attempts (some code) "non-2xx response" (non_retryable code))
  ]
  record_sent-Writes attempts (transport_error e) = mark_failed-Writes attempts none e false

amend-amend_apart :
    (i j : Uuid) (f g : WebhookDelivery → WebhookDelivery) (r : WebhookDelivery)
    → (i == j) ≡ false
    → (f r).id ≡ r.id
    → (g r).id ≡ r.id
    → amend (delivery_is i) f (amend (delivery_is j) g r)
      ≡ amend (delivery_is j) g (amend (delivery_is i) f r)
amend-amend_apart i j f g r apart kf kg = elim (Bool-cases (r.id == i)) [
  | inl mine ↦ let not_j : (r.id == j) ≡ false = ground arith in rw (mine, not_j) (ground arith)
  | inr other ↦ ground arith
]

-- Updates of the rows of two ids do not see one another.
update-update_apart :
    (i j : Uuid) (f g : WebhookDelivery → WebhookDelivery) (t : List WebhookDelivery)
    → (i == j) ≡ false
    → ((r : WebhookDelivery) → (f r).id ≡ r.id)
    → ((r : WebhookDelivery) → (g r).id ≡ r.id)
    → update (delivery_is i) f (update (delivery_is j) g t)
      ≡ update (delivery_is j) g (update (delivery_is i) f t)
unfolding update
update-update_apart i j f g [] apart kf kg = refl
update-update_apart i j f g (r ∷ t) apart kf kg =
    ap (λ h. h ∷ update (delivery_is i) f (update (delivery_is j) g t))
      (amend-amend_apart i j f g r apart (kf r) (kg r))
    ∙ ap (λ l. amend (delivery_is j) g (amend (delivery_is i) f r) ∷ l)
        (update-update_apart i j f g t apart kf kg)

pub find_apart :
    (i j : Uuid) (g : WebhookDelivery → WebhookDelivery) (t : List WebhookDelivery)
    → (j == i) ≡ false
    → ((r : WebhookDelivery) → (g r).id ≡ r.id)
    → find (delivery_is i) (update (delivery_is j) g t) ≡ find (delivery_is i) t
unfolding find update
find_apart i j g [] apart kg = refl
find_apart i j g (r ∷ t) apart kg = ground (arith, kg r, find_apart i j g t apart kg)

abbrev pub job_is : Uuid → Job → Bool
job_is id j = j.delivery_id == id

-- No two jobs are about one delivery.
abbrev pub JobsDiffer : List Job → Type 0
JobsDiffer js = (i : Uuid) → count (job_is i) js ≤ 1

module _ (o : Outside) where
  abbrev sent_db : Job → Db → Db
  sent_db j db =
      record_sent o.max_attempts (o.draw j.delivery_id) (o.sent_now j.delivery_id) j.delivery_id
        j.attempts (o.http (post_of o j)) db

  sent_db-sent_db :
      (j k : Job) (db : Db)
      → (j.delivery_id == k.delivery_id) ≡ false
      → sent_db j (sent_db k db) ≡ sent_db k (sent_db j db)
  sent_db-sent_db j k db apart =
      let (f, keep_f, pair_f, write_f) =
        record_sent-Writes o.max_attempts (o.draw j.delivery_id) (o.sent_now j.delivery_id)
          j.delivery_id j.attempts (o.http (post_of o j)) in
      let (g, keep_g, pair_g, write_g) =
        record_sent-Writes o.max_attempts (o.draw k.delivery_id) (o.sent_now k.delivery_id)
          k.delivery_id k.attempts (o.http (post_of o k)) in
      ap (sent_db j) (write_g db)
      ∙ write_f _
      ∙ ap (λ l. record db { deliveries = l })
          (update-update_apart j.delivery_id k.delivery_id f g db.deliveries apart keep_f keep_g)
      ∙ sym (ap (sent_db k) (write_f db) ∙ write_g _)

  -- The database after some sends depends on the database before them only.
  same_start :
      (js : List Job) (s s' : Sends) → s.db ≡ s'.db → (send_all o js s).db ≡ (send_all o js s').db
  unfolding send_all send_one
  same_start [] s s' h = h
  same_start (j ∷ js) s s' h = same_start js (send_one o j s) (send_one o j s') (ap (sent_db j) h)

  count_permuted : (q : Job → Bool) (js ks : List Job) → Permᴰ js ks → count q js ≡ count q ks
  unfolding count
  count_permuted q _ _ Permᴰ.nil = refl
  count_permuted q _ _ (Permᴰ.cons {a = a} {b = b} {l₁ = l₁} {l₂ = l₂} e p) =
      rw e (omega (arith, count_permuted q l₁ l₂ p))
  count_permuted q _ _ (Permᴰ.swap {a = a} {b = b} e f) = rw (e, f) (omega arith)
  count_permuted q _ _ (Permᴰ.trans {l₁ = l₁} {l₂ = l₂} {l₃ = l₃} p r) =
      count_permuted q l₁ l₂ p ∙ count_permuted q l₂ l₃ r

  first_differ :
      (j k : Job) (js : List Job)
      → JobsDiffer (j ∷ k ∷ js)
      → (j.delivery_id == k.delivery_id) ≡ false
  unfolding count
  first_differ j k js one = ground (arith, one k.delivery_id, ==_self k.delivery_id)

  rest_differ : (j : Job) (js : List Job) → JobsDiffer (j ∷ js) → JobsDiffer js
  unfolding count
  rest_differ j js one i = omega (arith, one i)

  -- The sends of a batch are spawned as tasks: in whatever order they end, the database is the same in
  -- the end, if no two jobs are about one delivery and what the receivers answer does not depend on it.
  pub send_all_any_order :
      (js ks : List Job) (s : Sends)
      → Permᴰ js ks
      → JobsDiffer js
      → (send_all o js s).db ≡ (send_all o ks s).db
  unfolding send_all send_one
  send_all_any_order _ _ s Permᴰ.nil one = refl
  send_all_any_order _ _ s (Permᴰ.cons {a = a} {b = b} {l₁ = l₁} {l₂ = l₂} e p) one =
      send_all_any_order l₁ l₂ (send_one o a s) p (rest_differ a l₁ one)
      ∙ same_start l₂ (send_one o a s) (send_one o b s) (ap (λ j. sent_db j s.db) e)
  send_all_any_order _ _ s (Permᴰ.swap {a = a} {b = b} {a' = a'} {b' = b'} {l = l} e f) one =
      same_start l (send_one o b (send_one o a s)) (send_one o b' (send_one o a' s))
        (sent_db-sent_db b a s.db (ground (arith, first_differ a b l one)) ∙ rw (e, f) refl)
  send_all_any_order _ _ s (Permᴰ.trans {l₁ = l₁} {l₂ = l₂} {l₃ = l₃} p q) one =
      send_all_any_order l₁ l₂ s p one
      ∙ send_all_any_order l₂ l₃ s q (λ i. omega (arith, count_permuted (job_is i) l₁ l₂ p, one i))
