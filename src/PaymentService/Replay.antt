-- ===== src/PaymentService/Replay.antt =====
-- A key that was used before (`replay` of
-- crates/invoice-service/src/services/payment_service.rs).
use invoice_payment_service.Prelude.{
  ℕ, ◌%◌, ◌^◌, String, not, Option, none, some, List, ◌&&◌, leb, ltb, if◌then◌else◌,
}
use invoice_payment_service.Prelude.Int.{pos}
use invoice_payment_service.Errors.{AppError, not_found, conflict, internal, Result, ok, err}
use invoice_payment_service.Domain.{Uuid}
use invoice_payment_service.Domain.Payment.{
  pending, PaymentAttemptResponse, in_progress, completed, IdempotencyKey,
}
use invoice_payment_service.Table.{find}
use invoice_payment_service.Db.{Db}
use invoice_payment_service.PaymentService.Statements.{key_of}
use invoice_payment_service.PaymentService.Types.{Crates, PayOutcome, poll_url}
use invoice_payment_service.PaymentService.Fingerprint.{bytes_eq}

-- `StatusCode::from_u16(code as u16).unwrap_or(StatusCode::OK)`
abbrev status_code : ℕ → ℕ
status_code code = let c = code % 2 ^ 16 in if leb 100 c && ltb c 1000 then c else 200

-- The cached response of a completed key; a NULL in its columns is a decoding error.
abbrev cached : Option ℕ → Option PaymentAttemptResponse → Result PayOutcome AppError
cached (some code) (some resp) = ok (status_code code, resp)
cached _ _ = err (internal "unexpected null; try decoding as an `Option`")

-- The answer while the first request with this key is in progress.
abbrev in_progress_response : Crates → Uuid → Option Uuid → PaymentAttemptResponse
in_progress_response c invoice_id attempt_id = record {
  attempt_id = elim attempt_id [ none ↦ 0 | some a ↦ a ];
  invoice_id = invoice_id;
  status = pending;
  amount_cents = pos 0;
  invoice_state = "open";
  psp_ref = none;
  failure_code = none;
  message = some "payment is still being processed";
  poll_url = elim attempt_id [ none ↦ none | some a ↦ some (poll_url c invoice_id a) ];
}

abbrev pub key_reuse : AppError
key_reuse =
    conflict "idempotency_key_reuse"
      "this idempotency key was already used with different request parameters"

-- `replay`, on the row of the key.
abbrev pub replay_row : Crates → List ℕ → Uuid → IdempotencyKey → Result PayOutcome AppError
replay_row c fp invoice_id k =
    if not (bytes_eq k.request_fingerprint fp) then err key_reuse else elim k.status [
      | completed ↦ cached k.response_status k.response_body
      | in_progress ↦ ok (202, in_progress_response c invoice_id k.attempt_id)
    ]

-- `replay`
unfoldable pub replay : Crates → Uuid → String → List ℕ → Uuid → Db → Result PayOutcome AppError
replay c business_id key fp invoice_id db =
    elim (find (key_of business_id key) db.idempotency_keys) [
      | none ↦ err (not_found "resource not found")
      | some k ↦ replay_row c fp invoice_id k
    ]
