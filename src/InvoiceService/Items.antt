-- ===== src/InvoiceService/Items.antt =====
-- The line items of a new invoice: what inserting them adds up to.
use invoice_payment_service.Prelude.{
  ℕ, ◌+◌, String, ◌≡◌, refl, ◌∙◌, true, false, List, [], ◌∷◌, arith, ◌==◌, ==_self,
}
use invoice_payment_service.Prelude.Int.{ℤ, pos, ◌+ℤ◌, ◌*ℤ◌, int_laws}
use invoice_payment_service.Errors.{AppError, SqlxError, Result, ok, err}
use invoice_payment_service.Domain.{Uuid}
use invoice_payment_service.Domain.Invoice.{LineItem, CreateLineItem}
use invoice_payment_service.Table.{insert, where_}
use invoice_payment_service.Table.Laws.{where_-insert, sum_by-insert}
use invoice_payment_service.Db.{Db, Action, query, ◌>>◌}
use invoice_payment_service.InvoiceRepo.{item_of, new_item, insert_line_item, as_i32, sum_items}
use invoice_payment_service.InvoiceService.{NewInvoice, insert_items}

-- The total that a request asks for, from its own numbers.
unfoldable pub items_total : List CreateLineItem → ℤ
items_total [] = pos 0
items_total (li ∷ items) = li.quantity *ℤ li.unit_amount_cents +ℤ items_total items

-- The items of every invoice but one are the same.
abbrev pub SameItemsElsewhere : Uuid → Db → Db → Type 0
SameItemsElsewhere invoice_id db db' =
    (id : Uuid)
    → (invoice_id == id) ≡ false
    → where_ (item_of id) db'.line_items ≡ where_ (item_of id) db.line_items

-- A statement that inserts items: the sum of the invoice grows by `total`, no other invoice's items
-- change, and no other table moves.
abbrev pub Adds : {E : Type 0} → Uuid → ℤ → Db → Result (Unit {0}) E × Db → Type 0
Adds invoice_id total db (ok _, db') =
    (sum_items invoice_id db' ≡ sum_items invoice_id db +ℤ total)
    × SameItemsElsewhere invoice_id db db'
    × (db' ≡ record db { line_items = db'.line_items })
Adds invoice_id total db (err e, db') = Unit

abbrev AddsSum : {E : Type 0} → Uuid → ℤ → Db → Result (Unit {0}) E × Db → Type 0
AddsSum invoice_id total db (ok _, db') =
    (sum_items invoice_id db' ≡ sum_items invoice_id db +ℤ total)
    × (db' ≡ record db { line_items = db'.line_items })
AddsSum invoice_id total db (err e, db') = Unit

sum_items-insert :
    (invoice_id : Uuid) (li : LineItem) (db : Db)
    → (li.invoice_id == invoice_id) ≡ true
    → sum_items invoice_id (record db { line_items = insert li db.line_items })
      ≡ sum_items invoice_id db +ℤ li.amount_cents.cents
unfolding sum_items
sum_items-insert invoice_id li db h =
    rw (where_-insert (item_of invoice_id) li db.line_items, h)
      (sum_by-insert (λ (r : LineItem). r.amount_cents.cents) li
        (where_ (item_of invoice_id) db.line_items))

insert_line_item-Elsewhere :
    (id invoice_id : Uuid) (description : String) (q u p : ℤ) (db : Db)
    → SameItemsElsewhere invoice_id db (insert_line_item id invoice_id description q u p db).1
unfolding insert_line_item
insert_line_item-Elsewhere id invoice_id description q u p db other differs =
    ground (
      arith,
      where_-insert (item_of other) (new_item id invoice_id description q u p) db.line_items,
    )

insert_line_item-Sum :
    (id invoice_id : Uuid) (description : String) (q u p : ℤ) (db : Db)
    → AddsSum invoice_id (q *ℤ u) db (insert_line_item id invoice_id description q u p db)
unfolding insert_line_item
insert_line_item-Sum id invoice_id description q u p db = ground (
  arith,
  sum_items-insert invoice_id (new_item id invoice_id description q u p) db,
  ==_self invoice_id,
)

with_elsewhere :
    {E : Type 0} (invoice_id : Uuid) (total : ℤ) (db : Db) (r : Result (Unit {0}) E × Db)
    → AddsSum invoice_id total db r
    → SameItemsElsewhere invoice_id db r.1
    → Adds invoice_id total db r
with_elsewhere invoice_id total db (ok u, db') h k = (h.0, k, h.1)
with_elsewhere invoice_id total db (err e, db') h k = tt

insert_line_item-Adds :
    (id invoice_id : Uuid) (description : String) (q u p : ℤ) (db : Db)
    → Adds invoice_id (q *ℤ u) db (insert_line_item id invoice_id description q u p db)
insert_line_item-Adds id invoice_id description q u p db =
    with_elsewhere invoice_id (q *ℤ u) db _
      (insert_line_item-Sum id invoice_id description q u p db)
      (insert_line_item-Elsewhere id invoice_id description q u p db)

Adds-trans :
    (invoice_id : Uuid) (a b : ℤ) (db db1 : Db) (r : Result (Unit {0}) AppError × Db)
    → sum_items invoice_id db1 ≡ sum_items invoice_id db +ℤ a
    → SameItemsElsewhere invoice_id db db1
    → db1 ≡ record db { line_items = db1.line_items }
    → Adds invoice_id b db1 r
    → Adds invoice_id (a +ℤ b) db r
Adds-trans invoice_id a b db db1 (ok u, db2) s k e h =
    (rw (h.0, s) (omega int_laws), (λ id differs. h.1 id differs ∙ k id differs), cc)
Adds-trans invoice_id a b db db1 (err e', db2) s k e h = tt

Adds-bind :
    (invoice_id : Uuid) (a b : ℤ) (db : Db) (r : Result (Unit {0}) SqlxError × Db)
    (rest : Action Unit)
    → Adds invoice_id a db r
    → ((db1 : Db) → Adds invoice_id b db1 (rest db1))
    → Adds invoice_id (a +ℤ b) db ((query (λ _. r) >> rest) db)
Adds-bind invoice_id a b db (ok u, db1) rest h k =
    Adds-trans invoice_id a b db db1 (rest db1) h.0 h.1 h.2 (k db1)
Adds-bind invoice_id a b db (err e, db1) rest h k = tt

pub insert_items-Adds :
    (ids : NewInvoice) (invoice_id : Uuid) (i : ℕ) (items : List CreateLineItem) (db : Db)
    → Adds invoice_id (items_total items) db (insert_items ids invoice_id i items db)
unfolding insert_items items_total
insert_items-Adds ids invoice_id i [] db = (omega int_laws, (λ id differs. refl), refl)
insert_items-Adds ids invoice_id i (li ∷ items) db =
    let inserted =
      insert_line_item (ids.item_id i) invoice_id li.description li.quantity li.unit_amount_cents
        (as_i32 i) db in
    Adds-bind invoice_id (li.quantity *ℤ li.unit_amount_cents) (items_total items) db inserted
      (insert_items ids invoice_id (i + 1) items)
      (insert_line_item-Adds (ids.item_id i) invoice_id li.description li.quantity
        li.unit_amount_cents (as_i32 i) db)
      (insert_items-Adds ids invoice_id (i + 1) items)
