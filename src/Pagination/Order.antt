-- ===== src/Pagination/Order.antt =====
-- The order of a listing: rows whose ids differ come strictly sorted, and a condition may be tested
-- before or after the sorting.
use invoice_payment_service.Prelude.{
  ◌≤◌, ◌≡◌, refl, ◌∙◌, Bool, true, false, not, ◌&&◌, ◌||◌, List, [], ◌∷◌, ◌++◌, arith, ◌==◌,
  ==_self, if◌then◌else◌, Bool-cases, inl, inr, some,
}
use invoice_payment_service.Domain.{Uuid, Time}
use invoice_payment_service.Table.{where_, exists, count, place, order_by}
use invoice_payment_service.Table.Laws.{not_exists_of_implied, count_of_exists, count-where_}
use invoice_payment_service.Pagination.{before_cursor, newest_first}

module _ {A : Type 0} where
  exists-place :
      (before : A → A → Bool) (q : A → Bool) (r : A) (t : List A)
      → exists q (place before r t) ≡ (q r || exists q t)
  unfolding exists place
  exists-place before q r [] = ground arith
  exists-place before q r (s ∷ t) = ground (arith, exists-place before q r t)

  pub exists-order_by :
      (before : A → A → Bool) (q : A → Bool) (t : List A)
      → exists q (order_by before t) ≡ exists q t
  unfolding exists order_by
  exists-order_by before q [] = refl
  exists-order_by before q (r ∷ t) =
      exists-place before q r (order_by before t) ∙ ground (arith, exists-order_by before q t)

  not_exists-where_ :
      (p q : A → Bool) (t : List A) → exists q t ≡ false → exists q (where_ p t) ≡ false
  unfolding exists where_
  not_exists-where_ p q [] h = refl
  not_exists-where_ p q (r ∷ t) h = ground (arith, not_exists-where_ p q t)

  -- A row that is before all others comes first.
  place_front :
      (before : A → A → Bool) (r : A) (t : List A)
      → exists (λ s. not (before r s)) t ≡ false
      → place before r t ≡ r ∷ t
  unfolding place exists
  place_front before r [] h = refl
  place_front before r (s ∷ t) h = ground arith

  pub where_-where_ :
      (p q : A → Bool) (t : List A) → where_ (λ r. p r && q r) t ≡ where_ q (where_ p t)
  unfolding where_
  where_-where_ p q [] = refl
  where_-where_ p q (r ∷ t) = ground (arith, where_-where_ p q t)

  pub where_all : (p : A → Bool) (t : List A) → exists (λ r. not (p r)) t ≡ false → where_ p t ≡ t
  unfolding where_ exists
  where_all p [] h = refl
  where_all p (r ∷ t) h = ground (arith, where_all p t)

  -- Every row is before the rows behind it.
  abbrev pub Sorted : (A → A → Bool) → List A → Type 0
  Sorted before [] = Unit
  Sorted before (r ∷ t) = (exists (λ s. not (before r s)) t ≡ false) × Sorted before t

  where_-place :
      (before : A → A → Bool) (p : A → Bool) (r : A) (t : List A)
      → ((a b c : A) → before a b ≡ true → before b c ≡ true → before a c ≡ true)
      → Sorted before t
      → where_ p (place before r t) ≡ (if p r then place before r (where_ p t) else where_ p t)
  unfolding where_ place
  where_-place before p r [] trans s = ground arith
  where_-place before p r (u ∷ t) trans (first, rest) = elim (Bool-cases (before r u)) [
    | inl front ↦
        let all_behind : exists (λ v. not (before r v)) t ≡ false =
          not_exists_of_implied (λ v. not (before r v)) (λ v. not (before u v)) t
            (λ v h. ground (arith, trans r u v front)) first in
        ground (
          arith,
          place_front before r (where_ p t)
              (not_exists-where_ p (λ v. not (before r v)) t all_behind),
        )
    | inr behind ↦ ground (arith, where_-place before p r t trans rest)
  ]

  exists_middle :
      (q : A → Bool) (front : List A) (r : A) (back : List A)
      → exists q (front ++ (r ∷ back)) ≡ false
      → q r ≡ false
  unfolding exists
  exists_middle q [] r back h = ground arith
  exists_middle q (u ∷ front) r back h = exists_middle q front r back (ground arith)

module _ {A : Type 0} (created_at : A → Time) (id : A → Uuid) where
  -- The primary key.
  abbrev pub IdsDiffer : List A → Type 0
  IdsDiffer t = (i : Uuid) → count (λ r. id r == i) t ≤ 1

  abbrev newer : A → A → Bool
  newer = newest_first created_at id

  newer_trans : (a b c : A) → newer a b ≡ true → newer b c ≡ true → newer a c ≡ true
  newer_trans a b c h k = ground arith

  newer_total : (a b : A) → newer a b ≡ false → (id b == id a) ≡ false → newer b a ≡ true
  newer_total a b h k = ground arith

  place-Sorted :
      (r : A) (t : List A)
      → exists (λ s. id s == id r) t ≡ false
      → Sorted newer t
      → Sorted newer (place newer r t)
  unfolding place exists
  place-Sorted r [] fresh s = (refl, tt)
  place-Sorted r (u ∷ t) fresh (first, rest) = elim (Bool-cases (newer r u)) [
    | inl front ↦ rw front (
      (ground (
        arith,
        not_exists_of_implied (λ v. not (newer r v)) (λ v. not (newer u v)) t
            (λ v h. ground (arith, newer_trans r u v front)) first,
      )),
      (first, rest),
    )
    | inr behind ↦ rw behind (
      exists-place newer (λ v. not (newer u v)) r t ∙ ground (arith, newer_total r u behind),
      place-Sorted r t (ground arith) rest,
    )
  ]

  fresh_ids : (r : A) (t : List A) → IdsDiffer (r ∷ t) → exists (λ s. id s == id r) t ≡ false
  unfolding count
  fresh_ids r t one = elim (Bool-cases (exists (λ s. id s == id r) t)) [
    | inr fresh ↦ fresh
    | inl taken ↦
        absurd
          (ground (arith, one (id r), ==_self (id r), count_of_exists (λ s. id s == id r) t taken))
  ]

  rest_differ : (r : A) (t : List A) → IdsDiffer (r ∷ t) → IdsDiffer t
  unfolding count
  rest_differ r t one i = omega (arith, one i)

  pub order_by-Sorted : (t : List A) → IdsDiffer t → Sorted newer (order_by newer t)
  unfolding order_by
  order_by-Sorted [] one = tt
  order_by-Sorted (r ∷ t) one =
      place-Sorted r (order_by newer t)
        (exists-order_by newer (λ s. id s == id r) t ∙ fresh_ids r t one)
        (order_by-Sorted t (rest_differ r t one))

  pub where_-IdsDiffer : (p : A → Bool) (t : List A) → IdsDiffer t → IdsDiffer (where_ p t)
  where_-IdsDiffer p t one i = omega (arith, count-where_ p (λ r. id r == i) t, one i)

  -- A condition may be tested on the sorted rows.
  pub where_-order_by :
      (p : A → Bool) (t : List A)
      → IdsDiffer t
      → where_ p (order_by newer t) ≡ order_by newer (where_ p t)
  unfolding where_ order_by
  where_-order_by p [] one = refl
  where_-order_by p (r ∷ t) one =
      where_-place newer p r (order_by newer t) newer_trans
        (order_by-Sorted t (rest_differ r t one))
      ∙ ground (arith, where_-order_by p t (rest_differ r t one))

  -- The rows behind a row of a sorted list are those that the cursor of the row selects.
  pub where_-before_cursor :
      (front : List A) (r : A) (back : List A)
      → Sorted newer (front ++ (r ∷ back))
      → where_ (before_cursor created_at id (some (created_at r, id r))) (front ++ (r ∷ back))
        ≡ back
  unfolding where_
  where_-before_cursor [] r back (first, rest) = ground (
    arith,
    where_all (before_cursor created_at id (some (created_at r, id r))) back
        (not_exists_of_implied _ (λ s. not (newer r s)) back (λ s h. ground arith) first),
  )
  where_-before_cursor (u ∷ front) r back (first, rest) = ground (
    arith,
    where_-before_cursor front r back rest,
    exists_middle (λ s. not (newer u s)) front r back first,
  )
