-- ===== src/Money/Display.antt =====
-- `Display for Money` (crates/common/src/money.rs) shows the amount to the cent.
use Prim.Native.Char.{Char, code}
use Prim.Native.String.{◌++◌ as str_append}
use invoice_payment_service.Prelude.{
  ℕ, zero, suc, ◌+◌, ◌-◌, ◌*◌, ◌/◌, ◌%◌, String, leb, ◌==◌, ◌&&◌, [], ◌∷◌, if◌then◌else◌,
  Text.digit, Text.decimal_from, Text.decimal, Text.concat,
}
use invoice_payment_service.Prelude.Int.{ℤ, pos, negsuc}
use invoice_payment_service.Money.{Money, two_digits}

-- A digit is put behind a number, and everything else is left out.
abbrev step : ℕ → ℕ → ℕ
step v d = if leb 0x30 d && leb d 0x39 then v * 10 + (d - 0x30) else v

-- The number that the digits of a text make behind `v`.
unfoldable pub digits : ℕ → String → ℕ
digits v String.[] = v
digits v (String.◌∷◌ c s) = digits (step v (code c)) s

abbrev minus_of : ℕ → ℤ
minus_of zero = pos 0
minus_of (suc n) = negsuc n

-- The cents that a reader sees: the digits, and a minus in front.
unfoldable pub read_cents : String → ℤ
unfolding digits
read_cents String.[] = pos 0
read_cents (String.◌∷◌ c s) =
    let n = digits 0 (String.◌∷◌ c s) in if code c == 0x2d then minus_of n else pos n

-- The absolute value, behind the sign.
abbrev shown : ℕ → String
shown x = concat ("$" ∷ decimal (x / 100) ∷ "." ∷ two_digits (x % 100) ∷ [])
