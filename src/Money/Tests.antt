-- ===== src/Money/Tests.antt =====
-- Tests of `Money` (the unit tests of crates/common/src/money.rs).
use invoice_payment_service.Prelude.{◌≡◌, refl}
use invoice_payment_service.Prelude.Int.{negsuc}
use invoice_payment_service.Money.{from_cents, display}

display_negative : display (from_cents (negsuc 149)) ≡ "-$1.50"
unfolding display
display_negative = refl
