-- ===== src/Table/Every.antt =====
-- What holds of every row of a table, under the statements on it.
use invoice_payment_service.Prelude.{
  ℕ, ◌≤◌, ◌≡◌, refl, Bool, true, false, some, List, [], ◌∷◌, arith, Bool-cases, inl, inr, ◌==◌,
  ==_self,
}
use mathlib.Core.Path.{subst}
use invoice_payment_service.Table.{where_, find, count, amend, update, insert}
use invoice_payment_service.Table.Laws.{count_of_exists, exists_of_find, exists_of_found}

module _ {ℓ} {A : Type ℓ} where
  abbrev pub Every : (A → Type 0) → List A → Type 0
  Every P [] = Unit
  Every P (r ∷ t) = P r × Every P t

  pub Every-insert : (P : A → Type 0) (r : A) (t : List A) → P r → Every P t → Every P (insert r t)
  unfolding insert
  Every-insert P r [] h hs = (h, tt)
  Every-insert P r (s ∷ t) h (k, hs) = (k, Every-insert P r t h hs)

  pub Every-find :
      (P : A → Type 0) (p : A → Bool) (r : A) (t : List A) → find p t ≡ some r → Every P t → P r
  unfolding find
  Every-find P p r [] found hs = cc
  Every-find P p r (s ∷ t) found (h, hs) = elim (Bool-cases (p s)) [
    | inl hit ↦ subst P (ground arith) h
    | inr miss ↦ Every-find P p r t (ground arith) hs
  ]

  -- An UPDATE that takes every row from `P` to `Q`.
  pub Every-update :
      (P Q : A → Type 0) (p : A → Bool) (f : A → A) (t : List A)
      → ((r : A) → P r → Q (amend p f r))
      → Every P t
      → Every Q (update p f t)
  unfolding update
  Every-update P Q p f [] keep hs = tt
  Every-update P Q p f (r ∷ t) keep (h, hs) = (keep r h, Every-update P Q p f t keep hs)

  pub Every-mono : (P Q : A → Type 0) (t : List A) → ((r : A) → P r → Q r) → Every P t → Every Q t
  Every-mono P Q [] up hs = tt
  Every-mono P Q (r ∷ t) up (h, hs) = (up r h, Every-mono P Q t up hs)

  -- The rows that a search returns.
  pub Every-where_ : (P : A → Type 0) (p : A → Bool) (t : List A) → Every P t → Every P (where_ p t)
  unfolding where_
  Every-where_ P p [] hs = tt
  Every-where_ P p (r ∷ t) (h, hs) = elim (Bool-cases (p r)) [
    | inl hit ↦ rw hit (h, Every-where_ P p t hs)
    | inr miss ↦ rw miss (Every-where_ P p t hs)
  ]

  none_else :
      (P : A → Type 0) (p : A → Bool) (t : List A) → count p t ≤ 0 → Every (λ s. p s ≡ true → P s) t
  unfolding count
  none_else P p [] one = tt
  none_else P p (s ∷ t) one = ((λ hit. absurd (ground arith)), none_else P p t (ground arith))

  -- If one row at most meets `p`, what holds of the one that is found holds of all that meet it.
  pub holds_of_only :
      (P : A → Type 0) (p : A → Bool) (r : A) (t : List A)
      → count p t ≤ 1
      → find p t ≡ some r
      → P r
      → Every (λ s. p s ≡ true → P s) t
  unfolding count find
  holds_of_only P p r [] one found h = tt
  holds_of_only P p r (s ∷ t) one found h = elim (Bool-cases (p s)) [
    | inl hit ↦ ((λ _. subst P (ground arith) h), none_else P p t (ground arith))
    | inr miss ↦ ((λ hit. absurd (cc)), holds_of_only P p r t (ground arith) (ground arith) h)
  ]

  -- The same row is found by a narrower criterion that it meets.
  find_wider :
      (p q : A → Bool) (r : A) (t : List A)
      → count q t ≤ 1
      → ((s : A) → p s ≡ true → q s ≡ true)
      → find p t ≡ some r
      → find q t ≡ some r
  unfolding find count
  find_wider p q r [] one up found = cc
  find_wider p q r (s ∷ t) one up found = elim (Bool-cases (q s)) [
    | inr miss ↦ ground (arith, up s, find_wider p q r t (ground arith) up)
    | inl hit ↦ elim (Bool-cases (p s)) [
      | inl both ↦ ground arith
      | inr other ↦
          let rest : find p t ≡ some r = ground arith in
          let met = exists_of_found p q r t rest (up r (exists_of_find p r t rest).1) in
          absurd (ground (arith, count_of_exists q t met))
    ]
  ]

  pub Every-both :
      (P Q : A → Type 0) (t : List A) → Every P t → Every Q t → Every (λ r. P r × Q r) t
  Every-both P Q [] hs ks = tt
  Every-both P Q (r ∷ t) (h, hs) (k, ks) = ((h, k), Every-both P Q t hs ks)

module _ {A : Type 0} (id_of : A → ℕ) where
  others_differ :
      (id : ℕ) (t : List A)
      → count (λ s. id_of s == id) t ≤ 0
      → Every (λ s. (id == id_of s) ≡ false) t
  unfolding count
  others_differ id [] none_has = tt
  others_differ id (s ∷ t) none_has = (ground arith, others_differ id t (ground arith))

  -- If no id is that of two rows, every row is the one that is found by its id.
  pub each_is_found :
      (t : List A)
      → ((id : ℕ) → count (λ s. id_of s == id) t ≤ 1)
      → Every (λ r. find (λ s. id_of s == id_of r) t ≡ some r) t
  unfolding count find
  each_is_found [] one = tt
  each_is_found (r ∷ t) one = (
    rw (==_self (id_of r)) refl,
    Every-mono (λ s. (find (λ u. id_of u == id_of s) t ≡ some s) × ((id_of r == id_of s) ≡ false)) _
        t (λ s both. rw both.1 both.0)
        (Every-both _ _ t (each_is_found t (λ id. ground (arith, one id)))
          (others_differ (id_of r) t (ground (arith, one (id_of r), ==_self (id_of r))))),
  )
