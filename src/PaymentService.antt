-- ===== src/PaymentService.antt =====
-- The payment flow (crates/invoice-service/src/services/payment_service.rs): two short transactions
-- around a call of the payment service provider. The HTTP client of the provider, SHA-256 and the
-- two forms of a UUID are parameters.
pub mod Types
pub mod Statements
pub mod Fingerprint
pub mod Inputs
pub mod Finalize
pub mod Replay
pub mod Pay
pub mod ActiveAttempt
pub mod Outcomes
pub mod Cached
pub mod Idempotency
pub mod Guards
pub mod Decision
pub mod Interleaving
pub mod PaidOnce
pub mod Settled
