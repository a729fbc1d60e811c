-- ===== src/PaymentService/Types.antt =====
-- The parameters, the state and the responses of the payment flow
-- (crates/invoice-service/src/services/payment_service.rs).
use invoice_payment_service.Prelude.{ℕ, String, none, some, List, [], ◌∷◌, Text.concat}
use invoice_payment_service.Prelude.Int.{ℤ}
use invoice_payment_service.Domain.{Uuid}
use invoice_payment_service.Domain.Payment.{
  PaymentStatus, pending, failed, PaymentAttemptResponse, PspResult,
}
use invoice_payment_service.Db.{Db}

-- What the flow takes from the `uuid` and `sha2` crates.
pub record Crates : Type 0 where
  pub uuid_text : Uuid → String
  pub uuid_bytes : Uuid → List ℕ
  pub sha256 : List ℕ → List ℕ

-- `PspClient::charge`: what a call with a card token, an amount and a key comes back with.
abbrev pub Psp : Type 0
Psp = String → ℤ → String → PspResult

-- One call of the provider.
pub record Charge : Type 0 where
  pub card_token : String
  pub amount_cents : ℤ
  pub idempotency_key : String

-- The database, and the calls of the provider so far, the last one first.
pub record World : Type 0 where
  pub db : Db
  pub charges : List Charge

-- `PayOutcome`: the HTTP status and the body.
abbrev pub PayOutcome : Type 0
PayOutcome = ℕ × PaymentAttemptResponse

abbrev pub poll_url : Crates → Uuid → Uuid → String
poll_url c invoice_id attempt_id =
    concat ("/v1/invoices/" ∷ c.uuid_text invoice_id ∷ "/payments/" ∷ c.uuid_text attempt_id ∷ [])

-- What a request carries from one transaction to the next.
pub record Claim : Type 0 where
  pub business_id : Uuid
  pub invoice_id : Uuid
  pub attempt_id : Uuid
  pub key : String
  pub amount_cents : ℤ

-- The body for each outcome of the provider.
abbrev pub succeeded_response : Claim → String → PaymentAttemptResponse
succeeded_response q psp_ref = record {
  attempt_id = q.attempt_id;
  invoice_id = q.invoice_id;
  status = PaymentStatus.succeeded;
  amount_cents = q.amount_cents;
  invoice_state = "paid";
  psp_ref = some psp_ref;
  failure_code = none;
  message = none;
  poll_url = none;
}

abbrev pub declined_response : Claim → String → PaymentAttemptResponse
declined_response q code = record {
  attempt_id = q.attempt_id;
  invoice_id = q.invoice_id;
  status = failed;
  amount_cents = q.amount_cents;
  invoice_state = "open";
  psp_ref = none;
  failure_code = some code;
  message = some "the payment was declined";
  poll_url = none;
}

abbrev pub unknown_response : Crates → Claim → PaymentAttemptResponse
unknown_response c q = record {
  attempt_id = q.attempt_id;
  invoice_id = q.invoice_id;
  status = pending;
  amount_cents = q.amount_cents;
  invoice_state = "open";
  psp_ref = none;
  failure_code = none;
  message = some "payment is being processed; poll for the result";
  poll_url = some (poll_url c q.invoice_id q.attempt_id);
}
