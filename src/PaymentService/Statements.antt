-- ===== src/PaymentService/Statements.antt =====
-- The SQL statements of crates/invoice-service/src/services/payment_service.rs, over the tables of
-- migrations/0008_payment_attempts.sql and migrations/0009_idempotency_keys.sql. `attempt_count`, an
-- `integer` that counts the calls with no definite answer, is unbounded here.
use invoice_payment_service.Prelude.{
  ℕ, ◌+◌, String, Bool, true, false, Option, none, some, List, ◌&&◌, ◌==◌, str_eq, if◌then◌else◌,
}
use invoice_payment_service.Prelude.Int.{ℤ, pos, ltb_ℤ}
use invoice_payment_service.Errors.{ok, err}
use invoice_payment_service.Money.{from_cents}
use invoice_payment_service.Domain.{Uuid, Time, seconds}
use invoice_payment_service.Domain.Invoice.{open_, paid, state_eq, Invoice}
use invoice_payment_service.Domain.Payment.{
  PaymentStatus, pending, failed, PaymentAttempt, PaymentAttemptResponse, in_progress, completed,
  IdempotencyKey,
}
use invoice_payment_service.Table.{exists, insert, update}
use invoice_payment_service.Db.{Db, Statement, unique_violation, check_violation}

-- The predicate of the index `uq_active_attempt_per_invoice`.
abbrev pub is_active : PaymentStatus → Bool
is_active pending = true
is_active PaymentStatus.succeeded = true
is_active _ = false

abbrev pub is_pending : PaymentStatus → Bool
is_pending pending = true
is_pending _ = false

abbrev pub attempt_is : Uuid → PaymentAttempt → Bool
attempt_is id a = a.id == id

-- The attempts that the unique index allows one of for each invoice.
abbrev pub active_for : Uuid → PaymentAttempt → Bool
active_for invoice_id a = a.invoice_id == invoice_id && is_active a.status

-- `WHERE id=$… AND status='pending'`
abbrev pub pending_is : Uuid → PaymentAttempt → Bool
pending_is id a = a.id == id && is_pending a.status

abbrev pub key_of : Uuid → String → IdempotencyKey → Bool
key_of business_id key k = k.business_id == business_id && str_eq k.idempotency_key key

abbrev pub new_key : Uuid → Uuid → String → List ℕ → Time → IdempotencyKey
new_key id business_id key fingerprint now = record {
  id = id;
  business_id = business_id;
  idempotency_key = key;
  request_fingerprint = fingerprint;
  status = in_progress;
  attempt_id = none;
  response_status = none;
  response_body = none;
  created_at = now;
  expires_at = now + seconds 86400;
}

-- `INSERT INTO idempotency_keys … ON CONFLICT (business_id, idempotency_key) DO NOTHING RETURNING true`
unfoldable pub insert_key : Uuid → Uuid → String → List ℕ → Time → Statement (Option Bool)
insert_key id business_id key fingerprint now db =
    if exists (key_of business_id key) db.idempotency_keys
    then (ok none, db)
    else if exists (λ (k : IdempotencyKey). k.id == id) db.idempotency_keys
    then (err (unique_violation "idempotency_keys_pkey"), db)
    else (
      ok (some true),
      record db {
        idempotency_keys = insert (new_key id business_id key fingerprint now) db.idempotency_keys;
      },
    )

abbrev pub new_attempt : Uuid → Uuid → Uuid → String → ℤ → String → Time → PaymentAttempt
new_attempt id invoice_id business_id key amount_cents card_token now = record {
  id = id;
  invoice_id = invoice_id;
  business_id = business_id;
  idempotency_key = key;
  amount_cents = from_cents amount_cents;
  currency = "USD";
  card_token = card_token;
  status = pending;
  psp_ref = none;
  failure_code = none;
  last_error = none;
  attempt_count = 1;
  next_poll_at = none;
  created_at = now;
  updated_at = now;
}

-- `INSERT INTO payment_attempts`, under its primary key and its partial unique index.
unfoldable pub insert_attempt : PaymentAttempt → Statement Unit
insert_attempt a db =
    if exists (attempt_is a.id) db.attempts
    then (err (unique_violation "payment_attempts_pkey"), db)
    else if exists (active_for a.invoice_id) db.attempts && is_active a.status
    then (err (unique_violation "uq_active_attempt_per_invoice"), db)
    else if ltb_ℤ a.amount_cents.cents (pos 0)
    then (err (check_violation "payment_attempts_amount_cents_check"), db)
    else (ok tt, record db { attempts = insert a db.attempts })

abbrev pub linked_key : Uuid → IdempotencyKey → IdempotencyKey
linked_key attempt_id k = record k { attempt_id = some attempt_id }

-- `UPDATE idempotency_keys SET attempt_id = $1 …`
unfoldable pub link_attempt : Uuid → Uuid → String → Db → Db
link_attempt attempt_id business_id key db = record db {
  idempotency_keys = update (key_of business_id key) (linked_key attempt_id) db.idempotency_keys;
}

-- The rows that the three UPDATEs of `payment_attempts` leave.
abbrev pub succeeded_attempt : String → Time → PaymentAttempt → PaymentAttempt
succeeded_attempt psp_ref now a = record a {
  status = PaymentStatus.succeeded;
  psp_ref = some psp_ref;
  updated_at = now;
}

abbrev pub failed_attempt : String → Time → PaymentAttempt → PaymentAttempt
failed_attempt code now a = record a { status = failed; failure_code = some code; updated_at = now }

abbrev pub unknown_attempt : String → Time → PaymentAttempt → PaymentAttempt
unknown_attempt reason now a = record a {
  last_error = some reason;
  attempt_count = a.attempt_count + 1;
  next_poll_at = some (now + seconds 5);
  updated_at = now;
}

-- `UPDATE payment_attempts SET status='succeeded', psp_ref=$1 …`
unfoldable pub mark_succeeded : Uuid → String → Time → Db → Db
mark_succeeded id psp_ref now db = record db {
  attempts = update (pending_is id) (succeeded_attempt psp_ref now) db.attempts;
}

-- `UPDATE payment_attempts SET status='failed', failure_code=$1 …`
unfoldable pub mark_failed : Uuid → String → Time → Db → Db
mark_failed id code now db = record db {
  attempts = update (pending_is id) (failed_attempt code now) db.attempts;
}

-- The UPDATE after an unknown outcome.
unfoldable pub mark_unknown : Uuid → String → Time → Db → Db
mark_unknown id reason now db = record db {
  attempts = update (pending_is id) (unknown_attempt reason now) db.attempts;
}

-- The row that `UPDATE invoices SET state='paid', …` leaves.
abbrev pub paid_invoice : Time → Invoice → Invoice
paid_invoice now r = record r {
  state = paid;
  paid_at = some now;
  version = r.version + 1;
  updated_at = now;
}

abbrev pub open_invoice : Uuid → Invoice → Bool
open_invoice id r = r.id == id && state_eq r.state open_

-- `UPDATE invoices SET state='paid', … WHERE id=$1 AND state='open'`
unfoldable pub mark_paid : Uuid → Time → Db → Db
mark_paid invoice_id now db = record db {
  invoices = update (open_invoice invoice_id) (paid_invoice now) db.invoices;
}

abbrev pub completed_key : ℕ → PaymentAttemptResponse → IdempotencyKey → IdempotencyKey
completed_key status resp k = record k {
  status = completed;
  response_status = some status;
  response_body = some resp;
}

-- `complete_key`
unfoldable pub complete_key : Uuid → String → ℕ → PaymentAttemptResponse → Db → Db
complete_key business_id key status resp db = record db {
  idempotency_keys =
      update (key_of business_id key) (completed_key status resp) db.idempotency_keys;
}
