-- ===== src/Reconciler/OneCharge.antt =====
-- The reconciler with the mock provider: a charge that the provider has made is found again.
use invoice_payment_service.Domain.{Time}
use invoice_payment_service.Domain.Payment.{PaymentAttempt}
use invoice_payment_service.Db.{Db}
use invoice_payment_service.PspClient.{ChargeOutcome}
use invoice_payment_service.PaymentService.Statements.{succeeded_attempt, failed_attempt}

-- The attempt once the outcome that the provider has recorded is known.
abbrev pub settled_by : ChargeOutcome → Time → PaymentAttempt → PaymentAttempt
settled_by (ChargeOutcome.succeeded psp_ref) now = succeeded_attempt psp_ref now
settled_by (ChargeOutcome.failed code) now = failed_attempt code now
