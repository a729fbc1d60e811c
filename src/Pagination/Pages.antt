-- ===== src/Pagination/Pages.antt =====
-- What a page holds, and when there is another one.
use invoice_payment_service.Prelude.{
  ℕ, zero, suc, ◌+◌, ◌≤◌, ◌<◌, ◌≡◌, refl, String, Bool, true, false, Option, none, some, List, [],
  ◌∷◌, take, length, length-take, is_some, ltb, Bool-cases, arith, ◌&&◌, ap, inl, inr, ltb→lt, sym,
  ◌∙◌,
}
use invoice_payment_service.Prelude.Int.{ℤ, pos, negsuc}
use invoice_payment_service.Domain.{Uuid, Time}
use invoice_payment_service.Table.{where_, order_by}
use invoice_payment_service.Pagination.{
  clamp_limit, CursorCodec, decoded, before_cursor, newest_first, select_page, cursor_at, cut_page,
  list_page,
}

pub clamp_limit_bounds : (o : Option ℤ) → (1 ≤ clamp_limit o) × (clamp_limit o ≤ 100)
unfolding clamp_limit
clamp_limit_bounds none = (omega arith, omega arith)
clamp_limit_bounds (some (pos n)) = (ground arith, ground arith)
clamp_limit_bounds (some (negsuc n)) = (ground arith, ground arith)

module _ {A : Type 0} (created_at : A → Time) (id : A → Uuid) where
  is_some-cursor_at :
      (codec : CursorCodec) (n : ℕ) (rows : List A)
      → n < length rows
      → 1 ≤ n
      → is_some (cursor_at created_at id codec n rows) ≡ true
  unfolding cursor_at
  is_some-cursor_at codec n [] h k = ground arith
  is_some-cursor_at codec zero (r ∷ rows) h k = ground arith
  is_some-cursor_at codec (suc zero) (r ∷ rows) h k = refl
  is_some-cursor_at codec (suc (suc n)) (r ∷ rows) h k =
      is_some-cursor_at codec (suc n) rows (omega arith) (omega arith)

  pub take-take-suc : (n : ℕ) (rows : List A) → take n (take (suc n) rows) ≡ take n rows
  take-take-suc zero rows = refl
  take-take-suc (suc n) [] = refl
  take-take-suc (suc n) (r ∷ rows) = ap (λ t. r ∷ t) (take-take-suc n rows)

  pub take_short : (n : ℕ) (rows : List A) → length rows ≤ n → take n rows ≡ rows
  take_short zero [] h = refl
  take_short zero (r ∷ rows) h = ground arith
  take_short (suc n) [] h = refl
  take_short (suc n) (r ∷ rows) h = ap (λ t. r ∷ t) (take_short n rows (omega arith))

  suc_form : (n : ℕ) → n + 1 ≡ suc n
  suc_form n = omega arith

  same_test : (n : ℕ) (rows : List A) → ltb n (length (take (suc n) rows)) ≡ ltb n (length rows)
  same_test n rows = ground (arith, length-take (suc n) rows)

  short_lt : (n : ℕ) (rows : List A) → ltb n (length (take (suc n) rows)) ≡ false → length rows ≤ n
  short_lt n rows h = ground (arith, length-take (suc n) rows)

  short : (n : ℕ) (rows : List A) → ltb n (length (take (suc n) rows)) ≡ false → length rows ≤ suc n
  short n rows h = omega (arith, short_lt n rows h)

  -- The rows of a page are the first `limit` of those asked for, and a cursor is given exactly when
  -- more rows exist.
  cut_lem :
      (codec : CursorCodec) (limit : ℕ) (rows : List A)
      → 1 ≤ limit
      → ((cut_page created_at id codec limit (take (suc limit) rows)).data_ ≡ take limit rows)
        × (is_some (cut_page created_at id codec limit (take (suc limit) rows)).next_cursor
            ≡ ltb limit (length rows))
  unfolding cut_page
  cut_lem codec limit rows h = elim (Bool-cases (ltb limit (length (take (suc limit) rows)))) [
    | inl more ↦ rw more (
      take-take-suc limit rows,
      is_some-cursor_at codec limit (take (suc limit) rows)
            (ltb→lt limit (length (take (suc limit) rows)) more) h
          ∙ sym more
          ∙ same_test limit rows,
    )
    | inr fits ↦ rw fits (
      take_short (suc limit) rows (short limit rows fits)
          ∙ sym (take_short limit rows (short_lt limit rows fits)),
      sym fits ∙ same_test limit rows,
    )
  ]

  -- The rows that a listing is about, in its order.
  abbrev pub matching : CursorCodec → (A → Bool) → Option String → List A → List A
  matching codec scope cursor t =
      order_by (newest_first created_at id)
        (where_ (λ r. scope r && before_cursor created_at id (decoded codec cursor) r) t)

  -- A page holds the first rows of the listing, at most the clamped limit of them, and it has a cursor
  -- for the next page exactly when the listing has more rows than that.
  pub list_page_lem :
      (codec : CursorCodec) (scope : A → Bool) (requested : Option ℤ) (cursor : Option String)
      (t : List A)
      → ((list_page created_at id codec scope requested cursor t).data_
          ≡ take (clamp_limit requested) (matching codec scope cursor t))
        × (is_some (list_page created_at id codec scope requested cursor t).next_cursor
            ≡ ltb (clamp_limit requested) (length (matching codec scope cursor t)))
  unfolding list_page select_page
  list_page_lem codec scope requested cursor t = rw (suc_form (clamp_limit requested)) (
      cut_lem codec (clamp_limit requested) (matching codec scope cursor t)
        (clamp_limit_bounds requested).0)
