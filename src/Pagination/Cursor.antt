-- ===== src/Pagination/Cursor.antt =====
-- The text of a cursor (`encode_cursor` and `decode_cursor` of crates/common/src/pagination.rs). The
-- crates `hex`, `chrono` and `uuid` are parameters.
use invoice_payment_service.Prelude.{
  ℕ, String, Option, none, some, List, [], ◌∷◌, Text.as_bytes, Text.concat, Text.split_at,
  Utf8.from_utf8,
}
use invoice_payment_service.Domain.{Uuid, Time}
use invoice_payment_service.Pagination.{CursorCodec}

-- `hex::encode` and `decode`, `to_rfc3339` and `parse_from_rfc3339` with `with_timezone`, `Display`
-- and `parse_str` of a `Uuid`.
pub record CursorCrates : Type 0 where
  pub hex_encode : List ℕ → String
  pub hex_decode : String → Option (List ℕ)
  pub to_rfc3339 : Time → String
  pub parse_from_rfc3339 : String → Option Time
  pub uuid_text : Uuid → String
  pub parse_uuid : String → Option Uuid

-- `|`
abbrev pub bar : ℕ
bar = 0x7c

infixl 5 ◌>>=◌
abbrev ◌>>=◌ : {A B : Type 0} → Option A → (A → Option B) → Option B
none >>= f = none
some a >>= f = f a

-- `str::split_once`
abbrev split_once : ℕ → String → Option (String × String)
split_once c s = let (front, back) = split_at c s in back >>= λ rest. some (front, rest)

-- `encode_cursor`
unfoldable pub encode_cursor : CursorCrates → Time → Uuid → String
encode_cursor c created_at id =
    c.hex_encode (as_bytes (concat (c.to_rfc3339 created_at ∷ "|" ∷ c.uuid_text id ∷ [])))

-- `decode_cursor`
unfoldable pub decode_cursor : CursorCrates → String → Option (Time × Uuid)
unfolding from_utf8 split_at
decode_cursor c cursor = do
  bytes ← c.hex_decode cursor
  raw ← from_utf8 bytes
  (ts, rest) ← split_once bar raw
  created_at ← c.parse_from_rfc3339 ts
  id ← c.parse_uuid rest
  some (created_at, id)

-- The two functions as the list services call them.
abbrev pub codec_of : CursorCrates → CursorCodec
codec_of c = record { encode_cursor = encode_cursor c; decode_cursor = decode_cursor c }
