-- ===== src/Table/Laws.antt =====
-- How the statements on a table act on one another.
use invoice_payment_service.Prelude.{
  ◌+◌, ◌≤◌, ◌≡◌, refl, Bool, true, false, Option, none, some, List, [], ◌∷◌, arith, if◌then◌else◌,
  ap, not, ◌&&◌, inl, inr, Bool-cases,
}
use invoice_payment_service.Prelude.Int.{ℤ, ◌+ℤ◌, int_laws}
use invoice_payment_service.Table.{where_, find, exists, count, amend, update, insert, sum_by}

module _ {ℓ} {A : Type ℓ} where
  -- A row that is inserted is found if no row before it is.
  pub find-insert :
      (p : A → Bool) (r : A) (t : List A)
      → find p (insert r t) ≡ (if exists p t then find p t else if p r then some r else none)
  unfolding find insert exists
  find-insert p r [] = refl
  find-insert p r (s ∷ t) = ground (arith, find-insert p r t)

  pub exists-insert :
      (p : A → Bool) (r : A) (t : List A)
      → exists p (insert r t) ≡ (if exists p t then true else p r)
  unfolding insert exists
  exists-insert p r [] = ground arith
  exists-insert p r (s ∷ t) = ground (arith, exists-insert p r t)

  pub find_of_not_exists : (p : A → Bool) (t : List A) → exists p t ≡ false → find p t ≡ none
  unfolding find exists
  find_of_not_exists p [] h = refl
  find_of_not_exists p (r ∷ t) h = ground (arith, find_of_not_exists p t)

  pub exists_of_find :
      (p : A → Bool) (r : A) (t : List A) → find p t ≡ some r → (exists p t ≡ true) × (p r ≡ true)
  unfolding find exists
  exists_of_find p r [] h = cc
  exists_of_find p r (s ∷ t) h = ground (arith, exists_of_find p r t)

  not_exists_of_find : (p : A → Bool) (t : List A) → find p t ≡ none → exists p t ≡ false
  unfolding find exists
  not_exists_of_find p [] h = refl
  not_exists_of_find p (r ∷ t) h = ground (arith, not_exists_of_find p t)

  abbrev pub map_option : (A → A) → Option A → Option A
  map_option f none = none
  map_option f (some r) = some (f r)

  -- An update that leaves the search criterion alone changes the row that is found.
  pub find-update :
      (p q : A → Bool) (f : A → A) (t : List A)
      → ((r : A) → p (amend q f r) ≡ p r)
      → find p (update q f t) ≡ map_option (amend q f) (find p t)
  unfolding find update
  find-update p q f [] h = refl
  find-update p q f (r ∷ t) h = rw (h r) (ground (arith, find-update p q f t h))

  -- A row that was just inserted, and then updated, is the one that is found.
  pub find-update-insert :
      (p q : A → Bool) (f : A → A) (r : A) (t : List A)
      → ((s : A) → p (amend q f s) ≡ p s)
      → exists p t ≡ false
      → p r ≡ true
      → find p (update q f (insert r t)) ≡ some (amend q f r)
  find-update-insert p q f r t keep fresh h =
      rw (find-update p q f (insert r t) keep, find-insert p r t, fresh, h)

  pub count-insert :
      (p : A → Bool) (r : A) (t : List A)
      → count p (insert r t) ≡ count p t + (if p r then 1 else 0)
  unfolding insert count
  count-insert p r [] = ground arith
  count-insert p r (s ∷ t) = omega (arith, count-insert p r t)

  -- An update under which no row comes to meet `p` does not raise their number.
  pub count-update-le :
      (p q : A → Bool) (f : A → A) (t : List A)
      → ((r : A) → p (amend q f r) ≡ true → p r ≡ true)
      → count p (update q f t) ≤ count p t
  unfolding update count
  count-update-le p q f [] h = omega arith
  count-update-le p q f (r ∷ t) h = ground (arith, count-update-le p q f t h, h r)

  pub count-update :
      (p q : A → Bool) (f : A → A) (t : List A)
      → ((r : A) → p (amend q f r) ≡ p r)
      → count p (update q f t) ≡ count p t
  unfolding update count
  count-update p q f [] h = refl
  count-update p q f (r ∷ t) h = rw (h r) (omega (arith, count-update p q f t h))

  pub count_of_not_exists : (p : A → Bool) (t : List A) → exists p t ≡ false → count p t ≡ 0
  unfolding exists count
  count_of_not_exists p [] h = refl
  count_of_not_exists p (r ∷ t) h = ground (arith, count_of_not_exists p t)

  pub count_of_exists : (p : A → Bool) (t : List A) → exists p t ≡ true → 1 ≤ count p t
  unfolding exists count
  count_of_exists p [] h = cc
  count_of_exists p (r ∷ t) h = ground (arith, count_of_exists p t)

  pub exists-update :
      (p q : A → Bool) (f : A → A) (t : List A)
      → ((r : A) → p (amend q f r) ≡ p r)
      → exists p (update q f t) ≡ exists p t
  unfolding update exists
  exists-update p q f [] h = refl
  exists-update p q f (r ∷ t) h = rw (h r) (ground (arith, exists-update p q f t h))

  -- An update that no row meets changes nothing.
  pub update_none : (q : A → Bool) (f : A → A) (t : List A) → exists q t ≡ false → update q f t ≡ t
  unfolding update exists
  update_none q f [] h = refl
  update_none q f (r ∷ t) h = ground (arith, update_none q f t)

  pub where_-insert :
      (p : A → Bool) (r : A) (t : List A)
      → where_ p (insert r t) ≡ (if p r then insert r (where_ p t) else where_ p t)
  unfolding where_ insert
  where_-insert p r [] = refl
  where_-insert p r (s ∷ t) = ground (arith, where_-insert p r t)

  pub sum_by-insert : (f : A → ℤ) (r : A) (t : List A) → sum_by f (insert r t) ≡ sum_by f t +ℤ f r
  unfolding sum_by insert
  sum_by-insert f r [] = omega int_laws
  sum_by-insert f r (s ∷ t) = rw (sum_by-insert f r t) (omega int_laws)

  -- A row that is found and meets another criterion too shows that some row does.
  pub exists_of_found :
      (p q : A → Bool) (r : A) (t : List A) → find p t ≡ some r → q r ≡ true → exists q t ≡ true
  unfolding find exists
  exists_of_found p q r [] h k = cc
  exists_of_found p q r (s ∷ t) h k = ground (arith, exists_of_found p q r t)

  -- An update under which every row that meets `p` goes on to do so does not lower their number.
  pub count-le-update :
      (p q : A → Bool) (f : A → A) (t : List A)
      → ((r : A) → p r ≡ true → p (amend q f r) ≡ true)
      → count p t ≤ count p (update q f t)
  unfolding update count
  count-le-update p q f [] h = omega arith
  count-le-update p q f (r ∷ t) h = ground (arith, count-le-update p q f t h, h r)

  pub count-le :
      (p q : A → Bool) (t : List A) → ((r : A) → p r ≡ true → q r ≡ true) → count p t ≤ count q t
  unfolding count
  count-le p q [] h = omega arith
  count-le p q (r ∷ t) h = ground (arith, count-le p q t h, h r)

  -- An update of rows that a search leaves out does not change what it finds, if a row does not come
  -- to meet it or cease to.
  pub where_-update_apart :
      (p q : A → Bool) (f : A → A) (t : List A)
      → ((r : A) → p (f r) ≡ p r)
      → exists (λ r. q r && p r) t ≡ false
      → where_ p (update q f t) ≡ where_ p t
  unfolding where_ update exists
  where_-update_apart p q f [] keep h = refl
  where_-update_apart p q f (r ∷ t) keep h =
      ground (arith, keep r, where_-update_apart p q f t keep)

  count-split :
      (p q : A → Bool) (t : List A)
      → count (λ r. q r && p r) t + count (λ r. q r && not (p r)) t ≡ count q t
  unfolding count
  count-split p q [] = refl
  count-split p q (r ∷ t) = ground (arith, count-split p q t)

  -- If at most one row meets `q`, and one does that does not meet `p`, then none meets both.
  pub only_one :
      (p q : A → Bool) (t : List A)
      → count q t ≤ 1
      → exists (λ r. q r && not (p r)) t ≡ true
      → exists (λ r. q r && p r) t ≡ false
  only_one p q t h other = elim (Bool-cases (exists (λ r. q r && p r) t)) [
    | inr none_meets ↦ none_meets
    | inl both ↦ absurd (
        omega (
          arith,
          count-split p q t,
          count_of_exists (λ r. q r && p r) t both,
          count_of_exists (λ r. q r && not (p r)) t other,
        ))
  ]

  pub not_exists_of_implied :
      (p q : A → Bool) (t : List A)
      → ((r : A) → p r ≡ true → q r ≡ true)
      → exists q t ≡ false
      → exists p t ≡ false
  unfolding exists
  not_exists_of_implied p q [] h e = refl
  not_exists_of_implied p q (r ∷ t) h e = ground (arith, h r, not_exists_of_implied p q t h)

  pub not_exists_never : (p : A → Bool) (t : List A) → ((r : A) → p r ≡ false) → exists p t ≡ false
  unfolding exists
  not_exists_never p [] h = refl
  not_exists_never p (r ∷ t) h = ground (arith, h r, not_exists_never p t h)

  pub update-insert :
      (q : A → Bool) (f : A → A) (r : A) (t : List A)
      → update q f (insert r t) ≡ insert (amend q f r) (update q f t)
  unfolding update insert
  update-insert q f r [] = refl
  update-insert q f r (s ∷ t) = ap (λ rest. amend q f s ∷ rest) (update-insert q f r t)

  pub count-where_ : (p q : A → Bool) (t : List A) → count q (where_ p t) ≤ count q t
  unfolding where_ count
  count-where_ p q [] = omega arith
  count-where_ p q (r ∷ t) = ground (arith, count-where_ p q t)
