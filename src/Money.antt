-- ===== src/Money.antt =====
-- Money as integer cents (crates/common/src/money.rs). An `i64` is an integer whose range is
-- tested where the source calls the checked operations.
pub mod Display
mod Tests
use invoice_payment_service.Prelude.{
  ℕ, suc, ◌-◌, ◌/◌, ◌%◌, ◌^◌, String, Bool, [], ◌∷◌, ◌&&◌, if◌then◌else◌, Text.concat, Text.decimal,
  Text.digit,
}
use invoice_payment_service.Prelude.Int.{ℤ, pos, negsuc, ◌+ℤ◌, ◌-ℤ◌, ◌*ℤ◌, leb_ℤ, ltb_ℤ}
use invoice_payment_service.Errors.{Result, ok, err}

-- `i64::MIN` and `i64::MAX`
abbrev pub i64_min : ℤ
i64_min = negsuc (2 ^ 63 - 1)

abbrev pub i64_max : ℤ
i64_max = pos (2 ^ 63 - 1)

abbrev pub fits_i64 : ℤ → Bool
fits_i64 n = leb_ℤ i64_min n && leb_ℤ n i64_max

-- `struct Money(i64)`, by its getter's name.
pub record Money : Type 0 where
  pub cents : ℤ

-- `Money::from_cents`
abbrev pub from_cents : ℤ → Money
from_cents n = record { cents = n }

-- `Money::ZERO`
abbrev pub money_zero : Money
money_zero = from_cents (pos 0)

-- `struct MoneyOverflow`
pub data MoneyOverflow : Type 0 where
  money_overflow : MoneyOverflow

-- `Money::is_negative`
unfoldable pub is_negative : Money → Bool
is_negative m = ltb_ℤ m.cents (pos 0)

-- `i64::checked_*` on the exact result, with `.map(Money).ok_or(MoneyOverflow)`.
abbrev pub checked : ℤ → Result Money MoneyOverflow
checked n = if fits_i64 n then ok (from_cents n) else err money_overflow

-- `Money::checked_mul_qty`
unfoldable pub checked_mul_qty : Money → ℤ → Result Money MoneyOverflow
unfolding ◌*ℤ◌
checked_mul_qty m qty = checked (m.cents *ℤ qty)

-- `Money::checked_add`
unfoldable pub checked_add : Money → Money → Result Money MoneyOverflow
checked_add a b = checked (a.cents +ℤ b.cents)

-- `Money::checked_sub`
unfoldable pub checked_sub : Money → Money → Result Money MoneyOverflow
checked_sub a b = checked (a.cents -ℤ b.cents)

-- `i64::unsigned_abs`
abbrev unsigned_abs : ℤ → ℕ
unsigned_abs (pos n) = n
unsigned_abs (negsuc n) = suc n

-- `{:02}` of a number below 100.
unfoldable pub two_digits : ℕ → String
unfolding digit
two_digits n = concat (digit (n / 10 % 10) ∷ digit (n % 10) ∷ [])

-- `Display for Money`
unfoldable pub display : Money → String
unfolding decimal two_digits
display m =
    let sign : String = if ltb_ℤ m.cents (pos 0) then "-" else "" in
    let abs : ℕ = unsigned_abs m.cents in
    concat (sign ∷ "$" ∷ decimal (abs / 100) ∷ "." ∷ two_digits (abs % 100) ∷ [])
