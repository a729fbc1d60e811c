-- ===== src/Domain/Payment.antt =====
-- Payment attempts and their responses (crates/invoice-service/src/domain/payment.rs), the
-- idempotency keys of migrations/0009_idempotency_keys.sql, and the outcome of a charge
-- (crates/invoice-service/src/psp/mod.rs).
use invoice_payment_service.Prelude.{ℕ, String, Option, List}
use invoice_payment_service.Prelude.Int.{ℤ}
use invoice_payment_service.Money.{Money}
use invoice_payment_service.Domain.{Uuid, Time}

-- `enum PaymentStatus`
pub data PaymentStatus : Type 0 where
  pending succeeded failed expired : PaymentStatus

-- `PaymentStatus::as_str`
unfoldable pub as_str : PaymentStatus → String
as_str pending = "pending"
as_str succeeded = "succeeded"
as_str failed = "failed"
as_str expired = "expired"

-- `struct PaymentAttempt`, a row of `payment_attempts`.
pub record PaymentAttempt : Type 0 where
  pub id : Uuid
  pub invoice_id : Uuid
  pub business_id : Uuid
  pub idempotency_key : String
  pub amount_cents : Money
  pub currency : String
  pub card_token : String
  pub status : PaymentStatus
  pub psp_ref : Option String
  pub failure_code : Option String
  pub last_error : Option String
  pub attempt_count : ℕ
  pub next_poll_at : Option Time
  pub created_at : Time
  pub updated_at : Time

-- `struct PayRequest`
pub record PayRequest : Type 0 where
  pub card_token : String

-- `struct PaymentAttemptResponse`
pub record PaymentAttemptResponse : Type 0 where
  pub attempt_id : Uuid
  pub invoice_id : Uuid
  pub status : PaymentStatus
  pub amount_cents : ℤ
  pub invoice_state : String
  pub psp_ref : Option String
  pub failure_code : Option String
  pub message : Option String
  pub poll_url : Option String

-- The column `idempotency_keys.status`.
pub data KeyStatus : Type 0 where
  in_progress completed : KeyStatus

-- A row of `idempotency_keys`. The cached body is kept as the response that it encodes.
pub record IdempotencyKey : Type 0 where
  pub id : Uuid
  pub business_id : Uuid
  pub idempotency_key : String
  pub request_fingerprint : List ℕ
  pub status : KeyStatus
  pub attempt_id : Option Uuid
  pub response_status : Option ℕ
  pub response_body : Option PaymentAttemptResponse
  pub created_at : Time
  pub expires_at : Time

-- `enum PspResult`
pub data PspResult : Type 0 where
  succeeded : (psp_ref : String) → PspResult
  declined : (code : String) → PspResult
  unknown : (reason : String) → PspResult
