-- ===== src/Dispatcher/Signing.antt =====
-- The signature of a webhook (crates/invoice-service/src/webhooks/signing.rs). HMAC-SHA256, the hex
-- form of bytes and the decimal form of a timestamp, an `i64`, are parameters.
use invoice_payment_service.Prelude.{ℕ, String, List, [], ◌∷◌, ◌++◌, Text.as_bytes, Text.concat}
use invoice_payment_service.Prelude.Int.{ℤ}

module _ (hmac_sha256 : List ℕ → List ℕ → List ℕ) (hex : List ℕ → String)
    (to_string : ℤ → String) where
  -- `sign`
  unfoldable pub sign : List ℕ → ℤ → List ℕ → String
  unfolding as_bytes
  sign secret timestamp body =
      hex (hmac_sha256 secret (as_bytes (to_string timestamp) ++ (as_bytes "." ++ body)))

  -- `signature_header`
  unfoldable pub signature_header : List ℕ → ℤ → List ℕ → String
  unfolding sign
  signature_header secret timestamp body =
      concat ("t=" ∷ to_string timestamp ∷ ",v1=" ∷ sign secret timestamp body ∷ [])
