-- ===== src/Pagination.antt =====
-- Keyset pagination (crates/common/src/pagination.rs) and the cut of a page that the list services
-- share. The text of a cursor is that of the crates `hex`, `chrono` and `uuid`: a parameter.
pub mod Pages
pub mod Cursor
pub mod CursorRoundTrip
pub mod Order
pub mod Walk
use invoice_payment_service.Prelude.{
  ℕ, zero, suc, ◌+◌, String, Bool, true, Option, none, some, List, [], ◌∷◌, take, length, ltb, ◌==◌,
  ◌&&◌, ◌||◌, if◌then◌else◌,
}
use invoice_payment_service.Prelude.Int.{ℤ, pos, pos_part, ltb_ℤ}
use invoice_payment_service.Domain.{Uuid, Time}
use invoice_payment_service.Table.{where_, order_by}

-- `DEFAULT_LIMIT` and `MAX_LIMIT`
abbrev default_limit : ℤ
default_limit = pos 25

abbrev max_limit : ℤ
max_limit = pos 100

-- `Ord::clamp`
abbrev clamp : ℤ → ℤ → ℤ → ℤ
clamp low high x = if ltb_ℤ x low then low else if ltb_ℤ high x then high else x

-- `clamp_limit`; the result is a size of lists from here on.
unfoldable pub clamp_limit : Option ℤ → ℕ
clamp_limit none = pos_part (clamp (pos 1) max_limit default_limit)
clamp_limit (some requested) = pos_part (clamp (pos 1) max_limit requested)

-- `encode_cursor` and `decode_cursor`
pub record CursorCodec : Type 0 where
  pub encode_cursor : Time → Uuid → String
  pub decode_cursor : String → Option (Time × Uuid)

-- `struct Page`
pub record Page (A : Type 0) : Type 0 where
  pub data_ : List A
  pub next_cursor : Option String

-- `cursor.as_deref().and_then(decode_cursor)`
abbrev pub decoded : CursorCodec → Option String → Option (Time × Uuid)
decoded codec none = none
decoded codec (some c) = codec.decode_cursor c

module _ {A : Type 0} (created_at : A → Time) (id : A → Uuid) where
  -- `(created_at, id) < ($2, $3)`
  abbrev pub before_cursor : Option (Time × Uuid) → A → Bool
  before_cursor none r = true
  before_cursor (some (ts, i)) r = ltb (created_at r) ts || (created_at r == ts && ltb (id r) i)

  -- `ORDER BY created_at DESC, id DESC`
  abbrev pub newest_first : A → A → Bool
  newest_first a b =
      ltb (created_at b) (created_at a) || (created_at a == created_at b && ltb (id b) (id a))

  -- The query of a page: the rows in scope behind the cursor, newest first, at most `limit`.
  unfoldable pub select_page : (A → Bool) → ℕ → Option (Time × Uuid) → List A → List A
  select_page scope limit cursor t =
      take limit (order_by newest_first (where_ (λ r. scope r && before_cursor cursor r) t))

  -- `rows[n - 1]` as the cursor of the next page; the row exists, since there are more than `n`.
  unfoldable pub cursor_at : CursorCodec → ℕ → List A → Option String
  cursor_at codec n [] = none
  cursor_at codec zero (r ∷ rows) = none
  cursor_at codec (suc zero) (r ∷ rows) = some (codec.encode_cursor (created_at r) (id r))
  cursor_at codec (suc (suc n)) (r ∷ rows) = cursor_at codec (suc n) rows

  -- The cut of the page: one row more than `limit` was asked for.
  unfoldable pub cut_page : CursorCodec → ℕ → List A → Page A
  unfolding cursor_at
  cut_page codec limit rows =
      if ltb limit (length rows)
      then record { data_ = take limit rows; next_cursor = cursor_at codec limit rows }
      else record { data_ = rows; next_cursor = none }

  -- The body that the list services share.
  unfoldable pub list_page : CursorCodec → (A → Bool) → Option ℤ → Option String → List A → Page A
  unfolding clamp_limit select_page cut_page
  list_page codec scope requested cursor t =
      cut_page codec (clamp_limit requested)
        (select_page scope (clamp_limit requested + 1) (decoded codec cursor) t)
