-- ===== src/Domain/ApiKey.antt =====
-- The table `api_keys` (migrations/0003_api_keys.sql) and the DTOs of
-- crates/invoice-service/src/domain/api_key.rs.
use invoice_payment_service.Prelude.{ℕ, String, Option, List}
use invoice_payment_service.Domain.{Uuid, Time}

-- A row of `api_keys`.
pub record ApiKey : Type 0 where
  pub id : Uuid
  pub business_id : Uuid
  pub name : Option String
  pub prefix : String
  pub key_hash : List ℕ
  pub last_four : String
  pub created_at : Time
  pub last_used_at : Option Time
  pub revoked_at : Option Time
  pub expires_at : Option Time

-- `struct CreateApiKeyRequest`
pub record CreateApiKeyRequest : Type 0 where
  pub name : Option String
  pub env : Option String

-- `struct CreateApiKeyResponse`
pub record CreateApiKeyResponse : Type 0 where
  pub id : Uuid
  pub prefix : String
  pub key : String

-- `struct ApiKeyListItem`
pub record ApiKeyListItem : Type 0 where
  pub id : Uuid
  pub name : Option String
  pub prefix : String
  pub last_four : String
  pub created_at : Time
  pub revoked_at : Option Time
