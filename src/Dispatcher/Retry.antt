-- ===== src/Dispatcher/Retry.antt =====
-- The retry policy of the dispatcher.
use invoice_payment_service.Prelude.{
  ℕ, zero, suc, ◌+◌, ◌-◌, ◌*◌, ◌^◌, ◌%◌, ◌≤◌, ◌<◌, min, max, String, ◌≡◌, refl, ◌⊎◌, inl, inr, Bool,
  false, Option, none, some, arith, Bool-cases, ◌∙◌, ◌&&◌, ◌||◌, leb, ltb,
}
use invoice_payment_service.Prelude.Int.{ℤ, pos, leb_ℤ}
use invoice_payment_service.Domain.{Uuid, Time, seconds}
use invoice_payment_service.Domain.Webhook.{WebhookDelivery, succeeded, failed, dead}
use invoice_payment_service.Table.{find, update}
use invoice_payment_service.Table.Laws.{find-update, exists_of_find}
use invoice_payment_service.Db.{Db}
use invoice_payment_service.Dispatcher.{
  ceiling, delivery_is, non_retryable, mark_succeeded, mark_failed, Sent, responded,
  transport_error, record_sent, succeeded_delivery, dead_delivery, failed_delivery,
}

one_le_power : (n : ℕ) → 1 ≤ 2 ^ n
one_le_power zero = omega arith
one_le_power (suc n) = ground (arith, one_le_power n)

shift_lem : (n : ℕ) → n < 64 → (max (suc n) 1 - 1) % 64 ≡ n
shift_lem n h = omega arith

-- As long as the shift of 64 bits does not wrap around, the ceiling of the delay is ten seconds,
-- doubled for each attempt after the first, up to an hour.
pub ceiling_doubles : (n : ℕ) → n < 64 → ceiling (suc n) ≡ min (10 * 2 ^ n) 3600
unfolding ceiling
ceiling_doubles n h = rw (shift_lem n h) (omega (arith, one_le_power n))

-- The ceiling lies between one second and an hour, whatever the number of attempts.
ceiling_bounds : (n : ℕ) → (1 ≤ ceiling n) × (ceiling n ≤ 3600)
unfolding ceiling
ceiling_bounds n = (omega arith, omega arith)

module _ (max_attempts : ℤ) (draw : ℕ → ℕ) (now : Time) (drawn : (n : ℕ) → draw n ≤ n) (id : Uuid)
    (db : Db) where
  -- A delivery that a send has settled: it is unlocked, and succeeded, or dead, or failed with
  -- attempts left and the next one within the hour.
  abbrev pub Settled : ℕ → Db → Type 0
  Settled attempts db' =
      (d : WebhookDelivery) × (find (delivery_is id) db'.deliveries ≡ some d)
      × (d.locked_until ≡ none)
      × ((d.status ≡ succeeded)
          ⊎ (d.status ≡ dead)
          ⊎ ((d.status ≡ failed)
              × (leb_ℤ max_attempts (pos attempts) ≡ false)
              × (d.next_attempt_at ≤ now + seconds 3600)))

  module _ (d : WebhookDelivery) (found : find (delivery_is id) db.deliveries ≡ some d) where
    find_written :
        (f : WebhookDelivery → WebhookDelivery)
        → ((r : WebhookDelivery) → (f r).id ≡ r.id)
        → find (delivery_is id) (update (delivery_is id) f db.deliveries) ≡ some (f d)
    find_written f keep =
        find-update (delivery_is id) (delivery_is id) f db.deliveries (λ r. ground (arith, keep r))
        ∙ rw found (ground (arith, (exists_of_find (delivery_is id) d db.deliveries found).1))

    mark_failed-Settled :
        (attempts : ℕ) (code : Option ℕ) (error : String) (final : Bool)
        → Settled attempts (mark_failed max_attempts draw now id attempts code error final db)
    unfolding mark_failed
    mark_failed-Settled attempts code error final =
        elim (Bool-cases (final || leb_ℤ max_attempts (pos attempts))) [
          | inl over ↦ rw over (
            dead_delivery code error d,
            find_written (dead_delivery code error) (λ r. refl),
            refl,
            inr (inl refl),
          )
          | inr left ↦ rw left (
            failed_delivery (now + seconds (draw (ceiling attempts))) code error d,
            find_written (failed_delivery (now + seconds (draw (ceiling attempts))) code error)
                (λ r. refl),
            refl,
            inr (
                inr (
                  refl,
                  ground arith,
                  omega (arith, drawn (ceiling attempts), (ceiling_bounds attempts).1),
                )),
          )
        ]

    -- However a send ends, its delivery, if there is one, is unlocked afterwards, and has succeeded, is dead, or has
    -- failed with fewer attempts than the budget and is due again within an hour, if the random
    -- delay is at most its ceiling.
    pub record_sent-Settled :
        (attempts : ℕ) (sent : Sent)
        → Settled attempts (record_sent max_attempts draw now id attempts sent db)
    unfolding record_sent mark_succeeded
    record_sent-Settled attempts (responded code) =
        elim (Bool-cases (leb 200 code && ltb code 300)) [
          | inl success ↦ rw success (
            succeeded_delivery code d,
            find_written (succeeded_delivery code) (λ r. refl),
            refl,
            inl refl,
          )
          | inr other ↦
              rw other
                (mark_failed-Settled attempts (some code) "non-2xx response" (non_retryable code))
        ]
    record_sent-Settled attempts (transport_error e) = mark_failed-Settled attempts none e false
