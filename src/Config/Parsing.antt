-- ===== src/Config/Parsing.antt =====
-- The numbers in the environment are read as they are written.
use Prim.Native.Char.{Char, code}
use Prim.Native.String.{◌++◌ as str_append}
use text.Mathlib.TextLemmas.{nil-append, cons-append}
use invoice_payment_service.Prelude.{
  ℕ, zero, suc, ◌+◌, ◌-◌, ◌*◌, ◌/◌, ◌%◌, ◌^◌, ◌≤◌, ◌<◌, ◌≡◌, refl, ◌∙◌, ap, String, true, false,
  some, arith, ltb, ltb→lt, leb, ◌==◌, Bool-cases, inl, inr, Text.digit, Text.decimal_from,
  Text.decimal,
}
use invoice_payment_service.Config.{parse_digits, parse_u64, is_digit}

-- One digit in front of a text.
digit_char : (d : ℕ) → d < 10 → (c : Char) × (digit d ≡ String.◌∷◌ c "") × (code c ≡ 0x30 + d)
unfolding digit
digit_char zero h = (_, refl, refl)
digit_char (suc zero) h = (_, refl, refl)
digit_char (suc (suc zero)) h = (_, refl, refl)
digit_char (suc (suc (suc zero))) h = (_, refl, refl)
digit_char (suc (suc (suc (suc zero)))) h = (_, refl, refl)
digit_char (suc (suc (suc (suc (suc zero))))) h = (_, refl, refl)
digit_char (suc (suc (suc (suc (suc (suc zero)))))) h = (_, refl, refl)
digit_char (suc (suc (suc (suc (suc (suc (suc zero))))))) h = (_, refl, refl)
digit_char (suc (suc (suc (suc (suc (suc (suc (suc zero)))))))) h = (_, refl, refl)
digit_char (suc (suc (suc (suc (suc (suc (suc (suc (suc zero))))))))) h = (_, refl, refl)
digit_char (suc (suc (suc (suc (suc (suc (suc (suc (suc (suc d)))))))))) h = absurd (omega arith)

pub digit_append :
    (d : ℕ) (s : String)
    → d < 10
    → (c : Char) × (str_append (digit d) s ≡ String.◌∷◌ c s) × (code c ≡ 0x30 + d)
digit_append d s h =
    let (c, shape, value) = digit_char d h in
    (
      c,
      ap (λ t. str_append t s) shape ∙ cons-append c "" s ∙ ap (String.◌∷◌ c) (nil-append s),
      value,
    )

parse_digit :
    (bound v d : ℕ) (s : String)
    → d < 10
    → v * 10 + d ≤ bound
    → parse_digits bound v (str_append (digit d) s) ≡ parse_digits bound (v * 10 + d) s
unfolding parse_digits
parse_digit bound v d s h k =
    let (c, shape, value) = digit_append d s h in
    let worth : code c - 0x30 ≡ d = omega (arith, value) in
    let plain : is_digit (code c) ≡ true = ground (arith, value) in
    let fits : leb (v * 10 + d) bound ≡ true = ground arith in rw (shape, worth, plain, fits) refl

-- The digits of a number bring its value.
parse_decimal_from :
    (bound fuel n : ℕ) (acc : String)
    → n < fuel
    → n ≤ bound
    → parse_digits bound 0 (decimal_from fuel n acc) ≡ parse_digits bound n acc
unfolding decimal_from
parse_decimal_from bound zero n acc h k = absurd (omega arith)
parse_decimal_from bound (suc fuel) n acc h k = elim (Bool-cases (ltb n 10)) [
  | inl last ↦ rw last (
      parse_digit bound 0 n acc (ltb→lt n 10 last) (omega arith)
      ∙ ap (λ v. parse_digits bound v acc) (omega arith))
  | inr more ↦ rw more (
      parse_decimal_from bound fuel (n / 10) (str_append (digit (n % 10)) acc) (ground arith)
        (omega arith)
      ∙ parse_digit bound (n / 10) (n % 10) acc (omega arith) (omega arith)
      ∙ ap (λ v. parse_digits bound v acc) (omega arith))
]

-- They begin with a digit.
first_digit :
    (fuel n : ℕ) (acc : String)
    → n < fuel
    → (c : Char) × (s : String) × (decimal_from fuel n acc ≡ String.◌∷◌ c s) × (0x30 ≤ code c)
unfolding decimal_from
first_digit zero n acc h = absurd (omega arith)
first_digit (suc fuel) n acc h = elim (Bool-cases (ltb n 10)) [
  | inl last ↦ rw last (
      let (c, shape, value) = digit_append n acc (ltb→lt n 10 last) in
      (c, acc, shape, omega (arith, value)))
  | inr more ↦ rw more (first_digit fuel (n / 10) (str_append (digit (n % 10)) acc) (ground arith))
]

no_digits : (bound n : ℕ) → parse_digits bound n "" ≡ some n
unfolding parse_digits
no_digits bound n = refl

parse_u64_digits :
    (t : String) (c : Char) (s : String)
    → t ≡ String.◌∷◌ c s
    → 0x30 ≤ code c
    → parse_u64 t ≡ parse_digits (2 ^ 64 - 1) 0 t
unfolding parse_u64
parse_u64_digits t c s shape h =
    let unsigned : (code c == 0x2b) ≡ false = ground arith in rw (shape, unsigned) refl

-- A number below 2^64 that is written in decimal is read back.
pub parse_u64-decimal : (n : ℕ) → n < 2 ^ 64 → parse_u64 (decimal n) ≡ some n
unfolding decimal
parse_u64-decimal n h =
    let (c, s, shape, low) = first_digit (suc n) n "" (omega arith) in
    parse_u64_digits (decimal n) c s shape low
    ∙ parse_decimal_from (2 ^ 64 - 1) (suc n) n "" (omega arith) (omega arith)
    ∙ no_digits (2 ^ 64 - 1) n
