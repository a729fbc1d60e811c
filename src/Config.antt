-- ===== src/Config.antt =====
-- The configuration (crates/common/src/config.rs). `std::env::var` is a parameter: the text of a
-- variable that is set and is Unicode.
pub mod Parsing
pub mod Defaults
use Prim.Native.Char.{code}
use invoice_payment_service.Prelude.{
  ℕ, ◌+◌, ◌-◌, ◌*◌, ◌^◌, String, Bool, ◌&&◌, Option, none, some, leb, ◌==◌, if◌then◌else◌,
}
use invoice_payment_service.Prelude.Int.{ℤ, pos, negsuc}
use invoice_payment_service.Errors.{Result, ok, err}

-- `struct ServiceConfig`; the timeout in milliseconds.
pub record ServiceConfig : Type 0 where
  pub database_url : String
  pub bind_addr : String
  pub psp_base_url : String
  pub psp_timeout_ms : ℕ
  pub webhook_max_attempts : ℤ

abbrev pub is_digit : ℕ → Bool
is_digit c = leb 0x30 c && leb c 0x39

-- The digits that `from_str_radix` still reads, behind the value `v`, up to the largest value `bound`.
unfoldable pub parse_digits : (bound v : ℕ) → String → Option ℕ
parse_digits bound v String.[] = some v
parse_digits bound v (String.◌∷◌ c s) =
    let next = v * 10 + (code c - 0x30) in
    let rest = parse_digits bound next s in
    if is_digit (code c) && leb next bound then rest else none

-- A text of one digit at least.
abbrev pub parse_magnitude : (bound : ℕ) → String → Option ℕ
parse_magnitude bound String.[] = none
parse_magnitude bound (String.◌∷◌ c s) = parse_digits bound 0 (String.◌∷◌ c s)

-- `str::parse::<u64>`
unfoldable pub parse_u64 : String → Option ℕ
unfolding parse_digits
parse_u64 String.[] = none
parse_u64 (String.◌∷◌ c s) =
    if code c == 0x2b
    then parse_magnitude (2 ^ 64 - 1) s
    else parse_digits (2 ^ 64 - 1) 0 (String.◌∷◌ c s)

abbrev pub negated : ℕ → ℤ
negated n = if n == 0 then pos 0 else negsuc (n - 1)

abbrev pub map_option {ℓ κ} : {A : Type ℓ} {B : Type κ} → (A → B) → Option A → Option B
map_option f none = none
map_option f (some a) = some (f a)

-- `str::parse::<i32>`
unfoldable pub parse_i32 : String → Option ℤ
unfolding parse_digits
parse_i32 String.[] = none
parse_i32 (String.◌∷◌ c s) =
    if code c == 0x2d
    then map_option negated (parse_magnitude (2 ^ 31) s)
    else if code c == 0x2b
    then map_option pos (parse_magnitude (2 ^ 31 - 1) s)
    else map_option pos (parse_digits (2 ^ 31 - 1) 0 (String.◌∷◌ c s))

-- `.and_then(|v| v.parse().ok())`
abbrev pub and_then {ℓ κ} : {A : Type ℓ} {B : Type κ} → Option A → (A → Option B) → Option B
and_then none f = none
and_then (some a) f = f a

abbrev pub unwrap_or {ℓ} : {A : Type ℓ} → Option A → A → A
unwrap_or none a = a
unwrap_or (some b) a = b

abbrev pub with_url : (String → Option String) → Option String → Result ServiceConfig String
with_url var none = err "DATABASE_URL must be set"
with_url var (some url) = ok (record {
  database_url = url;
  bind_addr = unwrap_or (var "BIND_ADDR") "0.0.0.0:8080";
  psp_base_url = unwrap_or (var "PSP_BASE_URL") "http://localhost:9090";
  psp_timeout_ms = unwrap_or (and_then (var "PSP_TIMEOUT_MS") parse_u64) 5000;
  webhook_max_attempts = unwrap_or (and_then (var "WEBHOOK_MAX_ATTEMPTS") parse_i32) (pos 8);
})

-- `ServiceConfig::from_env`
unfoldable pub from_env : (String → Option String) → Result ServiceConfig String
unfolding parse_u64 parse_i32
from_env var = with_url var (var "DATABASE_URL")
