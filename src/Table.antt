-- ===== src/Table.antt =====
-- Tables as lists of rows in the order of insertion, and the clauses of SQL that the program's
-- statements use: WHERE, EXISTS, UPDATE … SET, ORDER BY, LIMIT, SUM.
pub mod Laws
pub mod Claimed
pub mod Every
use invoice_payment_service.Prelude.{
  ℕ, ◌+◌, Bool, true, false, Option, none, some, List, [], ◌∷◌, if◌then◌else◌,
}
use invoice_payment_service.Prelude.Int.{ℤ, pos, ◌+ℤ◌}

module _ {ℓ} {A : Type ℓ} where
  -- SELECT … WHERE p
  unfoldable pub where_ : (A → Bool) → List A → List A
  where_ p [] = []
  where_ p (r ∷ t) = let rest = where_ p t in if p r then r ∷ rest else rest

  -- `fetch_optional` of SELECT … WHERE p, for a `p` that holds of one row at most.
  unfoldable pub find : (A → Bool) → List A → Option A
  find p [] = none
  find p (r ∷ t) = if p r then some r else find p t

  -- EXISTS (SELECT … WHERE p)
  unfoldable pub exists : (A → Bool) → List A → Bool
  exists p [] = false
  exists p (r ∷ t) = if p r then true else exists p t

  -- How many rows meet `p`: `rows_affected`.
  unfoldable pub count : (A → Bool) → List A → ℕ
  count p [] = 0
  count p (r ∷ t) = (if p r then 1 else 0) + count p t

  -- What UPDATE … SET f WHERE p does to one row.
  abbrev pub amend : (A → Bool) → (A → A) → A → A
  amend p f r = if p r then f r else r

  -- UPDATE … SET f WHERE p
  unfoldable pub update : (A → Bool) → (A → A) → List A → List A
  update p f [] = []
  update p f (r ∷ t) = amend p f r ∷ update p f t

  -- INSERT of one row.
  unfoldable pub insert : A → List A → List A
  insert r [] = r ∷ []
  insert r (s ∷ t) = s ∷ insert r t

  -- SUM of a column.
  unfoldable pub sum_by : (A → ℤ) → List A → ℤ
  sum_by f [] = pos 0
  sum_by f (r ∷ t) = f r +ℤ sum_by f t

  -- One row into a list in the order `before`, behind the rows that it is not before.
  unfoldable pub place : (A → A → Bool) → A → List A → List A
  place before r [] = r ∷ []
  place before r (s ∷ t) = let rest = place before r t in if before r s then r ∷ s ∷ t else s ∷ rest

  -- ORDER BY
  unfoldable pub order_by : (A → A → Bool) → List A → List A
  unfolding place
  order_by before [] = []
  order_by before (r ∷ t) = place before r (order_by before t)
