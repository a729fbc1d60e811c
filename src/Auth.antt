-- ===== src/Auth.antt =====
-- API keys (crates/invoice-service/src/auth, crates/invoice-service/src/repositories/api_key_repo.rs
-- and the handlers of crates/invoice-service/src/routes/api_keys.rs). SHA-256 and the random body of
-- a key are parameters.
pub mod Keys
pub mod Bearer
pub mod Lifecycle
use Prim.Native.Nat.{bit_or, bit_xor}
use invoice_payment_service.Prelude.{
  ℕ, ◌-◌, String, Bool, true, false, Option, none, some, List, [], ◌∷◌, ◌&&◌, ◌==◌, str_eq, ltb,
  if◌then◌else◌, length, map, Text.is_empty, Text.trim, Text.concat, Text.as_bytes,
  Text.strip_prefix, Text.take_chars, Text.drop_chars, Text.char_count,
}
use invoice_payment_service.Errors.{AppError, unauthorized, not_found, Result, ok, err}
use invoice_payment_service.Domain.{Uuid, Time}
use invoice_payment_service.Domain.ApiKey.{ApiKey, CreateApiKeyResponse, ApiKeyListItem}
use invoice_payment_service.Table.{where_, find, exists, count, update, insert, order_by}
use invoice_payment_service.Db.{Db, Action, Statement, query, pure, unique_violation, ◌>>=◌, ◌>>◌}

-- `PREFIX_LEN`
abbrev prefix_len : ℕ
prefix_len = 17

-- `derive_prefix`
unfoldable pub derive_prefix : String → String
unfolding take_chars
derive_prefix key = take_chars prefix_len key

-- `hash_key`
abbrev pub hash_key : (List ℕ → List ℕ) → String → List ℕ
hash_key sha256 key = sha256 (as_bytes key)

-- The bits in which two slices differ, gathered over the shorter of the two.
unfoldable pub diff_bits : ℕ → List ℕ → List ℕ → ℕ
diff_bits diff (x ∷ xs) (y ∷ ys) = diff_bits (bit_or diff (bit_xor x y)) xs ys
diff_bits diff _ _ = diff

-- `constant_time_eq`
unfoldable pub constant_time_eq : List ℕ → List ℕ → Bool
unfolding diff_bits
constant_time_eq a b = if length a == length b then diff_bits 0 a b == 0 else false

-- `struct GeneratedKey`
pub record GeneratedKey : Type 0 where
  pub full : String
  pub prefix : String
  pub last_four : String
  pub key_hash : List ℕ

abbrev pub key_env : String → String
key_env env = if str_eq env "live" then "live" else "test"

abbrev pub full_key : String → String → String
full_key env random = concat ("dpk_" ∷ key_env env ∷ "_" ∷ random ∷ [])

-- `generate_key`; `random` is the 36 alphanumeric characters, so that bytes are characters.
unfoldable pub generate_key : (List ℕ → List ℕ) → String → String → GeneratedKey
unfolding derive_prefix drop_chars char_count
generate_key sha256 random env =
    let full = full_key env random in
    record {
      full = full;
      prefix = derive_prefix full;
      last_four = drop_chars (char_count full - 4) full;
      key_hash = hash_key sha256 full;
    }

-- `bearer_token`, on the text of the header.
abbrev pub nonempty : String → Option String
nonempty s = if is_empty s then none else some s

abbrev trimmed : Option String → Option String
trimmed none = none
trimmed (some s) = nonempty (trim s)

unfoldable pub bearer_token : Option String → Option String
unfolding strip_prefix is_empty trim
bearer_token none = none
bearer_token (some raw) = trimmed (strip_prefix "Bearer " raw)

-- `expires_at IS NULL OR expires_at > now()`
abbrev unexpired : Time → Option Time → Bool
unexpired now none = true
unexpired now (some t) = ltb now t

abbrev unrevoked : Option Time → Bool
unrevoked none = true
unrevoked (some t) = false

-- The WHERE of the lookup.
abbrev pub usable : Time → String → ApiKey → Bool
usable now prefix k =
    str_eq k.prefix prefix && (unrevoked k.revoked_at && unexpired now k.expires_at)

-- The check of the row that was found.
abbrev pub check_hash : List ℕ → Option ApiKey → Result Uuid AppError
check_hash hash none = err unauthorized
check_hash hash (some k) =
    if constant_time_eq k.key_hash hash then ok k.business_id else err unauthorized

abbrev authenticate : (List ℕ → List ℕ) → Time → Option String → Db → Result Uuid AppError
authenticate sha256 now none db = err unauthorized
authenticate sha256 now (some token) db =
    check_hash (hash_key sha256 token) (find (usable now (derive_prefix token)) db.api_keys)

-- `require_api_key`: the business that the request acts for. The touch of `last_used_at`, which is
-- spawned and may fail, is left out: no code reads that column.
unfoldable pub require_api_key :
    (List ℕ → List ℕ) → Time → Option String → Db → Result Uuid AppError
unfolding bearer_token derive_prefix constant_time_eq
require_api_key sha256 now header db = authenticate sha256 now (bearer_token header) db

abbrev pub new_api_key : Uuid → Time → Uuid → Option String → GeneratedKey → ApiKey
new_api_key id now business_id name key = record {
  id = id;
  business_id = business_id;
  name = name;
  prefix = key.prefix;
  key_hash = key.key_hash;
  last_four = key.last_four;
  created_at = now;
  last_used_at = none;
  revoked_at = none;
  expires_at = none;
}

abbrev pub prefix_is : String → ApiKey → Bool
prefix_is prefix k = str_eq k.prefix prefix

-- `api_key_repo::insert`
unfoldable pub insert_key : ApiKey → Statement Uuid
insert_key k db =
    if exists (λ (r : ApiKey). r.id == k.id) db.api_keys
    then (err (unique_violation "api_keys_pkey"), db)
    else if exists (prefix_is k.prefix) db.api_keys
    then (err (unique_violation "uq_api_keys_prefix"), db)
    else (ok k.id, record db { api_keys = insert k db.api_keys })

-- `req.env.as_deref().unwrap_or("test")`
abbrev pub env_or_test : Option String → String
env_or_test none = "test"
env_or_test (some env) = env

-- The handler `create`.
unfoldable pub create_key :
    (List ℕ → List ℕ)
    → String
    → Uuid
    → Time
    → Uuid
    → Option String
    → Option String
    → Action CreateApiKeyResponse
unfolding insert_key generate_key
create_key sha256 random id now business_id name env = do
  let key = generate_key sha256 random (env_or_test env)
  key_id ← query (insert_key (new_api_key id now business_id name key))
  pure (record { id = key_id; prefix = key.prefix; key = key.full })

abbrev pub newer : ApiKey → ApiKey → Bool
newer a b = ltb b.created_at a.created_at

-- The columns that `api_key_repo::list` selects.
abbrev list_item : ApiKey → ApiKeyListItem
list_item k = record {
  id = k.id;
  name = k.name;
  prefix = k.prefix;
  last_four = k.last_four;
  created_at = k.created_at;
  revoked_at = k.revoked_at;
}

-- `api_key_repo::list`
unfoldable pub list_keys : Uuid → Db → List ApiKeyListItem
list_keys business_id db =
    map list_item
      (order_by newer (where_ (λ (k : ApiKey). k.business_id == business_id) db.api_keys))

abbrev pub revocable : Uuid → Uuid → ApiKey → Bool
revocable business_id id k = k.id == id && (k.business_id == business_id && unrevoked k.revoked_at)

abbrev pub revoked : Time → ApiKey → ApiKey
revoked now k = record k { revoked_at = some now }

-- `api_key_repo::revoke` with the handler `revoke`.
unfoldable pub revoke : Time → Uuid → Uuid → Action Unit
revoke now business_id id db =
    if count (revocable business_id id) db.api_keys == 0
    then (err (not_found "no active api key with that id"), db)
    else (
      ok tt,
      record db { api_keys = update (revocable business_id id) (revoked now) db.api_keys },
    )
