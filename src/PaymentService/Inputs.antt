-- ===== src/PaymentService/Inputs.antt =====
-- What `fingerprint` of crates/invoice-service/src/services/payment_service.rs hashes tells the
-- requests apart.
use native.Mathlib.Nat.{pow-suc}
use mathlib.Core.Path.{subst}
use invoice_payment_service.Prelude.{
  ℕ, zero, suc, ◌+◌, ◌*◌, ◌/◌, ◌^◌, ◌<◌, ◌≡◌, refl, sym, ◌∙◌, ap, String, List, [], ◌∷◌, ◌++◌,
  arith, length, length-append, append_parts, Text.as_bytes, Utf8.as_bytes_injective,
}
use invoice_payment_service.Prelude.Int.{ℤ, pos, negsuc}
use invoice_payment_service.Domain.{Uuid}
use invoice_payment_service.PaymentService.Types.{Crates}
use invoice_payment_service.PaymentService.Fingerprint.{le_bytes, as_u64, fingerprint_input}

-- The range of an `i64`.
abbrev pub IsI64 : ℤ → Type 0
IsI64 (pos n) = n < 2 ^ 63
IsI64 (negsuc n) = n < 2 ^ 63

-- What `from_le_bytes` reads.
abbrev from_le_bytes : List ℕ → ℕ
from_le_bytes [] = 0
from_le_bytes (b ∷ bs) = b + 256 * from_le_bytes bs

div_small : (x p : ℕ) → x < p * 256 → x / 256 < p
div_small x p h = omega arith

from_le_bytes-le_bytes : (n x : ℕ) → x < 256 ^ n → from_le_bytes (le_bytes n x) ≡ x
unfolding le_bytes
from_le_bytes-le_bytes zero x h = omega arith
from_le_bytes-le_bytes (suc n) x h = omega (
  arith,
  from_le_bytes-le_bytes n (x / 256) (div_small x (256 ^ n) (subst (λ m. x < m) (pow-suc 256 n) h)),
)

length-le_bytes : (n x : ℕ) → length (le_bytes n x) ≡ n
unfolding le_bytes
length-le_bytes zero x = refl
length-le_bytes (suc n) x = ap suc (length-le_bytes n (x / 256))

as_u64_bound : (a : ℤ) → IsI64 a → as_u64 a < 256 ^ 8
as_u64_bound (pos n) h = omega arith
as_u64_bound (negsuc n) h = omega arith

as_u64_injective : (a b : ℤ) → IsI64 a → IsI64 b → as_u64 a ≡ as_u64 b → a ≡ b
as_u64_injective (pos n) (pos m) h k e = ap pos e
as_u64_injective (pos n) (negsuc m) h k e = absurd (omega arith)
as_u64_injective (negsuc n) (pos m) h k e = absurd (omega arith)
as_u64_injective (negsuc n) (negsuc m) h k e = ap negsuc (omega arith)

amount_injective :
    (a b : ℤ) → IsI64 a → IsI64 b → le_bytes 8 (as_u64 a) ≡ le_bytes 8 (as_u64 b) → a ≡ b
amount_injective a b h k e = as_u64_injective a b h k (
    sym (from_le_bytes-le_bytes 8 (as_u64 a) (as_u64_bound a h))
    ∙ ap from_le_bytes e
    ∙ from_le_bytes-le_bytes 8 (as_u64 b) (as_u64_bound b k))

-- The bytes behind the id of the invoice.
tail_injective :
    (s t : String) (a b : ℤ)
    → IsI64 a
    → IsI64 b
    → as_bytes s ++ (0 ∷ le_bytes 8 (as_u64 a)) ≡ as_bytes t ++ (0 ∷ le_bytes 8 (as_u64 b))
    → (s ≡ t) × (a ≡ b)
tail_injective s t a b ha hb e =
    let amount_length : length (le_bytes 8 (as_u64 a)) ≡ length (le_bytes 8 (as_u64 b)) =
      length-le_bytes 8 (as_u64 a) ∙ sym (length-le_bytes 8 (as_u64 b)) in
    let (tokens, tail) =
      append_parts (as_bytes s) (as_bytes t) _ _
        (omega (
          arith,
          ap length e,
          length-append (as_bytes s) (0 ∷ le_bytes 8 (as_u64 a)),
          length-append (as_bytes t) (0 ∷ le_bytes 8 (as_u64 b)),
          amount_length,
        ))
        e in
    (as_bytes_injective s t tokens, amount_injective a b ha hb cc)

-- The bytes that the fingerprint hashes determine the request: where the bytes of an id are 16 that
-- no other id has, and the amounts are in the range of an `i64`, equal inputs mean the same invoice,
-- the same card token and the same amount, whatever characters the token has.
pub fingerprint_input_injective :
    (c : Crates) (i j : Uuid) (s t : String) (a b : ℤ)
    → ((u : Uuid) → length (c.uuid_bytes u) ≡ 16)
    → ((u v : Uuid) → c.uuid_bytes u ≡ c.uuid_bytes v → u ≡ v)
    → IsI64 a
    → IsI64 b
    → fingerprint_input c i s a ≡ fingerprint_input c j t b
    → (i ≡ j) × (s ≡ t) × (a ≡ b)
unfolding fingerprint_input
fingerprint_input_injective c i j s t a b sixteen apart ha hb e =
    let (ids, rest) =
      append_parts (c.uuid_bytes i) (c.uuid_bytes j) _ _ (sixteen i ∙ sym (sixteen j)) e in
    let (same_token, same_amount) = tail_injective s t a b ha hb cc in
    (apart i j ids, same_token, same_amount)
