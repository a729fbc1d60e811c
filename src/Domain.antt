-- ===== src/Domain.antt =====
-- The entities, enums and DTOs of crates/invoice-service/src/domain.
pub mod Invoice
pub mod Payment
pub mod Webhook
pub mod Customer
pub mod ApiKey
use invoice_payment_service.Prelude.{ℕ, ◌*◌}

-- A UUID, as the number that its 128 bits make: UUIDs are only compared and ordered.
abbrev pub Uuid : Type 0
Uuid = ℕ

-- `DateTime<Utc>`, as `timestamptz` keeps it: microseconds.
abbrev pub Time : Type 0
Time = ℕ

abbrev pub seconds : ℕ → Time
seconds n = n * 1000000
