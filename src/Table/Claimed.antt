-- ===== src/Table/Claimed.antt =====
-- Rows that an UPDATE claims and returns: UPDATE … SET f WHERE p RETURNING, for a `p` that all rows with
-- one id meet.
use invoice_payment_service.Prelude.{
  ℕ, ◌≤◌, ◌≡◌, refl, ◌∙◌, Bool, true, false, not, ◌&&◌, some, List, [], ◌∷◌, arith, ◌==◌,
}
use invoice_payment_service.Table.{where_, find, exists, count, update}
use invoice_payment_service.Table.Laws.{
  find-update, exists_of_find, exists_of_found, only_one, count-update, count-where_,
}

module _ {A : Type 0} (id_of : A → ℕ) (p : A → Bool) (f : A → A) (id : ℕ)
    (keep : (r : A) → id_of (f r) ≡ id_of r)
    (met : (r : A) → (id_of r == id) ≡ true → p r ≡ true) where
  abbrev has_id : A → Bool
  has_id r = id_of r == id

  abbrev returned : List A → List A
  returned t = where_ p (update p f t)

  find-where_ : (t : List A) → find has_id (where_ p t) ≡ find has_id t
  unfolding find where_
  find-where_ [] = refl
  find-where_ (r ∷ t) = ground (arith, met r, find-where_ t)

  pub find-claimed :
      (r : A) (t : List A) → find has_id t ≡ some r → find has_id (update p f t) ≡ some (f r)
  find-claimed r t found =
      find-update has_id p f t (λ s. ground (arith, keep s))
      ∙ rw found (rw (met r (exists_of_find has_id r t found).1) refl)

  pub find-returned :
      (r : A) (t : List A) → find has_id t ≡ some r → find has_id (returned t) ≡ some (f r)
  find-returned r t found = find-where_ (update p f t) ∙ find-claimed r t found

  -- If the id is that of one row at most, every returned row with it is as good as that row's.
  pub returned_good :
      (good : A → Bool) (r : A) (t : List A)
      → find has_id t ≡ some r
      → count has_id t ≤ 1
      → good (f r) ≡ true
      → exists (λ s. has_id s && not (good s)) (returned t) ≡ false
  returned_good good r t found one fine =
      only_one (λ s. not (good s)) has_id (returned t)
        (omega (
          arith,
          one,
          count-where_ p has_id (update p f t),
          count-update has_id p f t (λ s. ground (arith, keep s)),
        ))
        (exists_of_found has_id (λ s. has_id s && not (not (good s))) (f r) (returned t)
          (find-returned r t found) (ground (arith, exists_of_find has_id r t found, keep r)))
