-- ===== src/Config/Defaults.antt =====
-- What a configuration that was read can hold.
use Prim.Native.Char.{code}
use invoice_payment_service.Prelude.{
  ℕ, ◌+◌, ◌-◌, ◌*◌, ◌^◌, ◌≤◌, ◌<◌, ◌≡◌, refl, String, ◌&&◌, Option, none, some, arith, leb, ◌==◌,
  Bool-cases, inl, inr, Text.decimal,
}
use invoice_payment_service.Prelude.Int.{ℤ, pos, negsuc}
use invoice_payment_service.Errors.{Result, ok, err}
use invoice_payment_service.Config.Parsing.{parse_u64-decimal}
use invoice_payment_service.Config.{
  ServiceConfig, parse_digits, parse_magnitude, is_digit, parse_u64, parse_i32, negated, map_option,
  and_then, unwrap_or, with_url, from_env,
}

-- The range of an `i32`.
abbrev IsI32 : ℤ → Type 0
IsI32 (pos n) = n < 2 ^ 31
IsI32 (negsuc n) = n < 2 ^ 31

-- What a number that was read is at most.
abbrev AtMost : ℕ → Option ℕ → Type 0
AtMost bound none = Unit
AtMost bound (some n) = n ≤ bound

parse_digits-AtMost : (bound v : ℕ) (s : String) → v ≤ bound → AtMost bound (parse_digits bound v s)
unfolding parse_digits
parse_digits-AtMost bound v String.[] h = h
parse_digits-AtMost bound v (String.◌∷◌ c s) h =
    elim (Bool-cases (is_digit (code c) && leb (v * 10 + (code c - 0x30)) bound)) [
      | inl read ↦ rw read (parse_digits-AtMost bound (v * 10 + (code c - 0x30)) s (ground arith))
      | inr refused ↦ rw refused tt
    ]

parse_magnitude-AtMost : (bound : ℕ) (s : String) → AtMost bound (parse_magnitude bound s)
parse_magnitude-AtMost bound String.[] = tt
parse_magnitude-AtMost bound (String.◌∷◌ c s) =
    parse_digits-AtMost bound 0 (String.◌∷◌ c s) (omega arith)

parse_u64-AtMost : (s : String) → AtMost (2 ^ 64 - 1) (parse_u64 s)
unfolding parse_u64
parse_u64-AtMost String.[] = tt
parse_u64-AtMost (String.◌∷◌ c s) = elim (Bool-cases (code c == 0x2b)) [
  | inl plus ↦ rw plus (parse_magnitude-AtMost (2 ^ 64 - 1) s)
  | inr digits ↦ rw digits (parse_digits-AtMost (2 ^ 64 - 1) 0 (String.◌∷◌ c s) (omega arith))
]

abbrev InI32 : Option ℤ → Type 0
InI32 none = Unit
InI32 (some x) = IsI32 x

positive-InI32 : (o : Option ℕ) → AtMost (2 ^ 31 - 1) o → InI32 (map_option pos o)
positive-InI32 none h = tt
positive-InI32 (some n) h = omega arith

negated-IsI32 : (n : ℕ) → n ≤ 2 ^ 31 → IsI32 (negated n)
negated-IsI32 n h = elim (Bool-cases (n == 0)) [
  | inl nothing ↦ rw nothing (omega arith)
  | inr something ↦ rw something (ground arith)
]

negated-InI32 : (o : Option ℕ) → AtMost (2 ^ 31) o → InI32 (map_option negated o)
negated-InI32 none h = tt
negated-InI32 (some n) h = negated-IsI32 n h

parse_i32-InI32 : (s : String) → InI32 (parse_i32 s)
unfolding parse_i32
parse_i32-InI32 String.[] = tt
parse_i32-InI32 (String.◌∷◌ c s) = elim (Bool-cases (code c == 0x2d)) [
  | inl minus ↦
      rw minus (negated-InI32 (parse_magnitude (2 ^ 31) s) (parse_magnitude-AtMost (2 ^ 31) s))
  | inr other ↦ elim (Bool-cases (code c == 0x2b)) [
    | inl plus ↦
        rw (other, plus)
          (positive-InI32 (parse_magnitude (2 ^ 31 - 1) s) (parse_magnitude-AtMost (2 ^ 31 - 1) s))
    | inr digits ↦
        rw (other, digits)
          (positive-InI32 (parse_digits (2 ^ 31 - 1) 0 (String.◌∷◌ c s))
            (parse_digits-AtMost (2 ^ 31 - 1) 0 (String.◌∷◌ c s) (omega arith)))
  ]
]

read_bound : (o : Option ℕ) → AtMost (2 ^ 64 - 1) o → unwrap_or o 5000 < 2 ^ 64
read_bound none h = omega arith
read_bound (some n) h = omega arith

read_IsI32 : (o : Option ℤ) → InI32 o → IsI32 (unwrap_or o (pos 8))
read_IsI32 none h = omega arith
read_IsI32 (some x) h = h

timeout_bound : (o : Option String) → unwrap_or (and_then o parse_u64) 5000 < 2 ^ 64
timeout_bound none = omega arith
timeout_bound (some s) = read_bound (parse_u64 s) (parse_u64-AtMost s)

attempts_bound : (o : Option String) → IsI32 (unwrap_or (and_then o parse_i32) (pos 8))
attempts_bound none = omega arith
attempts_bound (some s) = read_IsI32 (parse_i32 s) (parse_i32-InI32 s)

-- What a configuration is, by the variable `DATABASE_URL`.
abbrev Configured : Option String → Result ServiceConfig String → Type 0
Configured url (ok c) =
    (url ≡ some c.database_url) × (c.psp_timeout_ms < 2 ^ 64) × IsI32 c.webhook_max_attempts
Configured url (err e) = url ≡ none

with_url-Configured :
    (var : String → Option String) (url : Option String) → Configured url (with_url var url)
with_url-Configured var none = refl
with_url-Configured var (some url) =
    (refl, timeout_bound (var "PSP_TIMEOUT_MS"), attempts_bound (var "WEBHOOK_MAX_ATTEMPTS"))

-- The configuration is refused only if `DATABASE_URL` is not set; one that is read has that URL, a
-- timeout in the range of a `u64` and a number of attempts in that of an `i32`, whatever texts the
-- other variables hold.
from_env-Configured :
    (var : String → Option String) → Configured (var "DATABASE_URL") (from_env var)
unfolding from_env
from_env-Configured var = with_url-Configured var (var "DATABASE_URL")

-- A timeout that is written in decimal, below 2^64, is the one that the service gets.
from_env_timeout :
    (var : String → Option String) (url : String) (n : ℕ)
    → var "DATABASE_URL" ≡ some url
    → var "PSP_TIMEOUT_MS" ≡ some (decimal n)
    → n < 2 ^ 64
    → (c : ServiceConfig) × (from_env var ≡ ok c) × (c.database_url ≡ url) × (c.psp_timeout_ms ≡ n)
unfolding from_env
from_env_timeout var url n given timeout h =
    rw given (_, refl, refl, rw (timeout, parse_u64-decimal n h) refl)
