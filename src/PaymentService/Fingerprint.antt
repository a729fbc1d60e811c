-- ===== src/PaymentService/Fingerprint.antt =====
-- The request fingerprint (`fingerprint` of
-- crates/invoice-service/src/services/payment_service.rs). SHA-256 is a parameter.
use invoice_payment_service.Prelude.{
  ℕ, zero, suc, ◌-◌, ◌/◌, ◌%◌, ◌^◌, String, Bool, true, false, List, [], ◌∷◌, ◌++◌, ◌&&◌, ◌==◌,
  Text.as_bytes,
}
use invoice_payment_service.Prelude.Int.{ℤ, pos, negsuc}
use invoice_payment_service.Domain.{Uuid}
use invoice_payment_service.PaymentService.Types.{Crates}

-- `to_le_bytes`: the lowest `n` bytes, the lowest first.
unfoldable pub le_bytes : ℕ → ℕ → List ℕ
le_bytes zero x = []
le_bytes (suc n) x = (x % 256) ∷ le_bytes n (x / 256)

-- The bits of an `i64` as an unsigned number, in two's complement.
abbrev pub as_u64 : ℤ → ℕ
as_u64 (pos n) = n
as_u64 (negsuc n) = 2 ^ 64 - 1 - n

-- The bytes that `fingerprint` feeds to the hash.
unfoldable pub fingerprint_input : Crates → Uuid → String → ℤ → List ℕ
unfolding le_bytes
fingerprint_input c invoice_id card_token amount_cents =
    c.uuid_bytes invoice_id ++ (0 ∷ (as_bytes card_token ++ (0 ∷ le_bytes 8 (as_u64 amount_cents))))

-- `fingerprint`
unfoldable pub fingerprint : Crates → Uuid → String → ℤ → List ℕ
fingerprint c invoice_id card_token amount_cents =
    c.sha256 (fingerprint_input c invoice_id card_token amount_cents)

-- `Vec<u8> == &[u8]`
unfoldable pub bytes_eq : List ℕ → List ℕ → Bool
bytes_eq [] [] = true
bytes_eq (x ∷ xs) (y ∷ ys) = x == y && bytes_eq xs ys
bytes_eq _ _ = false
