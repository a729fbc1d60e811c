-- ===== src/Pagination/Walk.antt =====
-- A client that follows the cursors of a listing, page after page, sees every row once.
use mathlib.Core.Path.{subst}
use invoice_payment_service.Prelude.{
  ℕ, zero, suc, ◌≤◌, ◌<◌, ◌≡◌, refl, sym, ◌∙◌, ap, Bool, true, String, Option, none, some, List, [],
  ◌∷◌, ◌++◌, arith, length, take, drop, ltb, Bool-cases, ◌⊎◌, inl, inr, length-append,
  take-append-drop, length-take,
}
use invoice_payment_service.Prelude.Int.{ℤ}
use invoice_payment_service.Domain.{Uuid, Time}
use invoice_payment_service.Table.{where_, order_by}
use invoice_payment_service.Table.Laws.{not_exists_never}
use invoice_payment_service.Pagination.{
  CursorCodec, clamp_limit, decoded, before_cursor, newest_first, cursor_at, cut_page, list_page,
  select_page,
}
use invoice_payment_service.Pagination.Pages.{
  clamp_limit_bounds, list_page_lem, matching, take-take-suc, take_short,
}
use invoice_payment_service.Pagination.Order.{
  Sorted, IdsDiffer, order_by-Sorted, where_-IdsDiffer, where_-order_by, where_-before_cursor,
  where_-where_, where_all,
}

module _ {A : Type 0} (created_at : A → Time) (id : A → Uuid) (codec : CursorCodec) where
  none_left : (l : List A) → length l ≤ 0 → [] ≡ l
  none_left [] h = refl
  none_left (r ∷ l) h = absurd (omega arith)

  append_nil : (l : List A) → l ++ [] ≡ l
  append_nil [] = refl
  append_nil (r ∷ l) = ap (λ t. r ∷ t) (append_nil l)

  append_assoc : (l m n : List A) → (l ++ m) ++ n ≡ l ++ (m ++ n)
  append_assoc [] m n = refl
  append_assoc (r ∷ l) m n = ap (λ t. r ∷ t) (append_assoc l m n)

  -- A list in three parts, from one in two and the shape of the second.
  whole :
      (front front' : List A) (r : A) (page behind all : List A)
      → page ≡ front' ++ (r ∷ [])
      → page ++ behind ≡ all
      → front ++ all ≡ (front ++ front') ++ (r ∷ behind)
  whole front front' r page behind all h k =
      ap (λ l. front ++ l) (sym k ∙ ap (λ l. l ++ behind) h ∙ append_assoc front' (r ∷ []) behind)
      ∙ sym (append_assoc front front' (r ∷ behind))

  -- The cursor of a page is that of its last row.
  cursor_at_lem :
      (n : ℕ) (rows : List A)
      → n < length rows
      → (front : List A) × (r : A) × (take (suc n) rows ≡ front ++ (r ∷ []))
        × (cursor_at created_at id codec (suc n) rows
            ≡ some (codec.encode_cursor (created_at r) (id r)))
  unfolding cursor_at
  cursor_at_lem n [] h = absurd (omega arith)
  cursor_at_lem zero (r ∷ rows) h = ([], r, refl, refl)
  cursor_at_lem (suc n) (r ∷ rows) h =
      let (front, last, shape, cursor) = cursor_at_lem n rows (omega arith) in
      (r ∷ front, last, ap (λ l. r ∷ l) shape, cursor)

  -- What the cut of a page of `n` rows gives as the next cursor.
  abbrev NextIs : ℕ → List A → Option String → Type 0
  NextIs n rows next =
      ((length rows ≤ n) × (next ≡ none))
      ⊎ ((front : List A) × (r : A) × (take n rows ≡ front ++ (r ∷ []))
          × (next ≡ some (codec.encode_cursor (created_at r) (id r))))

  cut_page-NextIs :
      (n : ℕ) (rows : List A)
      → 1 ≤ n
      → NextIs n rows (cut_page created_at id codec n (take (suc n) rows)).next_cursor
  unfolding cut_page
  cut_page-NextIs zero rows h = absurd (omega arith)
  cut_page-NextIs (suc n) rows h =
      elim (Bool-cases (ltb (suc n) (length (take (suc (suc n)) rows)))) [
        | inr fits ↦ inl (ground (arith, length-take (suc (suc n)) rows), rw fits refl)
        | inl more ↦
            let (front, r, shape, cursor) =
              cursor_at_lem n (take (suc (suc n)) rows) (ground arith) in
            inr (front, r, sym (take-take-suc created_at id (suc n) rows) ∙ shape, rw more cursor)
      ]

  module _ (scope : A → Bool) (requested : Option ℤ) (t : List A) where
    -- A client: the rows of a page, and then those of the next pages, at most `fuel` pages.
    abbrev followed : (String → List A) → Option String → List A
    followed next none = []
    followed next (some c) = next c

    unfoldable pub walk : ℕ → Option String → List A
    unfolding list_page
    walk zero cursor = []
    walk (suc fuel) cursor =
        let page = list_page created_at id codec scope requested cursor t in
        page.data_ ++ followed (λ c. walk fuel (some c)) page.next_cursor

    abbrev size : ℕ
    size = clamp_limit requested

    -- The rows that a cursor leaves to come, and those of the whole listing.
    abbrev ahead : Option String → List A
    ahead cursor = matching created_at id codec scope cursor t

    abbrev listing : List A
    listing = order_by (newest_first created_at id) (where_ scope t)

    next_cursor-NextIs :
        (cursor : Option String)
        → NextIs size
            (ahead cursor)
            (list_page created_at id codec scope requested cursor t).next_cursor
    unfolding list_page select_page
    next_cursor-NextIs cursor =
        subst
          (λ k.
            NextIs size (ahead cursor)
              (cut_page created_at id codec size (take k (ahead cursor))).next_cursor)
          {x = suc size} (omega arith)
          (cut_page-NextIs size (ahead cursor) (clamp_limit_bounds requested).0)

    module _ (one : IdsDiffer created_at id t)
        (decode : (ts : Time) (i : Uuid)
          → codec.decode_cursor (codec.encode_cursor ts i) ≡ some (ts, i)) where
      ahead_lem :
          (cursor : Option String)
          → ahead cursor ≡ where_ (before_cursor created_at id (decoded codec cursor)) listing
      ahead_lem cursor =
          ap (order_by (newest_first created_at id))
            (where_-where_ scope (before_cursor created_at id (decoded codec cursor)) t)
          ∙ sym (
              where_-order_by created_at id (before_cursor created_at id (decoded codec cursor))
                (where_ scope t) (where_-IdsDiffer created_at id scope t one))

      ahead-none : ahead none ≡ listing
      ahead-none =
          ahead_lem none ∙ where_all (λ r. true) listing (not_exists_never _ listing (λ r. refl))

      ahead_of_cursor :
          (front : List A) (r : A) (back : List A)
          → listing ≡ front ++ (r ∷ back)
          → ahead (some (codec.encode_cursor (created_at r) (id r))) ≡ back
      ahead_of_cursor front r back shape =
          ahead_lem (some (codec.encode_cursor (created_at r) (id r)))
          ∙ rw (decode (created_at r) (id r)) (
              ap (where_ (before_cursor created_at id (some (created_at r, id r)))) shape
              ∙ where_-before_cursor created_at id front r back (
                  subst (Sorted (newest_first created_at id)) shape (
                    order_by-Sorted created_at id (where_ scope t)
                      (where_-IdsDiffer created_at id scope t one))))

      walk_from :
          (fuel : ℕ) (cursor : Option String) (front : List A)
          → listing ≡ front ++ ahead cursor
          → length (ahead cursor) ≤ fuel
          → walk fuel cursor ≡ ahead cursor
      unfolding walk
      walk_from zero cursor front shape enough = none_left (ahead cursor) enough
      walk_from (suc fuel) cursor front shape enough = elim (next_cursor-NextIs cursor) [
        | inl (fits, last) ↦
            rw ((list_page_lem created_at id codec scope requested cursor t).0, last)
              (append_nil (take size (ahead cursor))
                ∙ take_short created_at id size (ahead cursor) fits)
        | inr (front', r, page, next) ↦
            let behind = drop size (ahead cursor) in
            let split : take size (ahead cursor) ++ behind ≡ ahead cursor =
              take-append-drop size (ahead cursor) in
            let shape' : listing ≡ (front ++ front') ++ (r ∷ behind) =
              shape
              ∙ whole front front' r (take size (ahead cursor)) behind (ahead cursor) page split in
            let rest : ahead (some (codec.encode_cursor (created_at r) (id r))) ≡ behind =
              ahead_of_cursor (front ++ front') r behind shape' in
            rw ((list_page_lem created_at id codec scope requested cursor t).0, next)
              (ap (λ l. take size (ahead cursor) ++ l)
                  (walk_from fuel (some (codec.encode_cursor (created_at r) (id r)))
                      ((front ++ front') ++ (r ∷ []))
                      (shape'
                        ∙ ap (λ l. (front ++ front') ++ (r ∷ l)) (sym rest)
                        ∙ sym (
                            append_assoc (front ++ front') (r ∷ [])
                              (ahead (some (codec.encode_cursor (created_at r) (id r))))))
                      (omega (
                        arith,
                        enough,
                        ap length rest,
                        ap length split,
                        length-append (take size (ahead cursor)) behind,
                        length-take size (ahead cursor),
                        (clamp_limit_bounds requested).0,
                      ))
                    ∙ rest)
                ∙ split)
      ]

      -- A client that follows the cursors from the first page on, in a table that does not change
      -- meanwhile, gets the rows in scope, each once and in the order of the listing, for every
      -- requested size of a page, in no more pages than there are rows: where the ids of the rows
      -- differ and a cursor is decoded to what it was encoded from.
      pub walk_lem : (fuel : ℕ) → length listing ≤ fuel → walk fuel none ≡ listing
      walk_lem fuel enough =
          walk_from fuel none [] (sym ahead-none) (omega (arith, ap length ahead-none)) ∙ ahead-none
