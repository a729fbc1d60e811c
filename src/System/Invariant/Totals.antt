-- ===== src/System/Invariant/Totals.antt =====
-- The total of an invoice is what its line items add up to, in every state of the service.
use mathlib.Core.Path.{subst}
use invoice_payment_service.Prelude.{
  ◌≡◌, refl, sym, ◌∙◌, ap, true, false, List, [], ◌∷◌, arith, ◌==◌, if◌then◌else◌,
}
use invoice_payment_service.Domain.{Uuid}
use invoice_payment_service.Domain.Invoice.{Invoice, LineItem}
use invoice_payment_service.Table.{exists, amend, insert, where_, sum_by}
use invoice_payment_service.Table.Laws.{
  exists-insert, exists-update, count-insert, count-update, count_of_not_exists,
}
use invoice_payment_service.Table.Every.{Every, Every-insert, Every-update, Every-mono, Every-both}
use invoice_payment_service.Db.{Db}
use invoice_payment_service.InvoiceRepo.{invoice_is, item_of, sum_items}
use invoice_payment_service.Tenants.{InvoiceIdsDiffer}
use invoice_payment_service.System.Writes.{InvoiceWrite, untouched, created, evolved}
use invoice_payment_service.System.Evolution.{Evolved}

-- The foreign key of the line items: an id that no invoice has, no line item refers to.
abbrev pub ItemsHaveInvoice : Db → Type 0
ItemsHaveInvoice db =
    (id : Uuid)
    → exists (invoice_is id) db.invoices ≡ false
    → where_ (item_of id) db.line_items ≡ []

abbrev pub IsTotalled : Db → Invoice → Type 0
IsTotalled db r = sum_items r.id db ≡ r.total_cents.cents

module _ (db db' : Db) where
  pub write-InvoiceIdsDiffer : InvoiceWrite db db' → InvoiceIdsDiffer db → InvoiceIdsDiffer db'
  write-InvoiceIdsDiffer (untouched same items) h id = rw same (h id)
  write-InvoiceIdsDiffer (created r fresh w elsewhere sum) h id = rw w (
      ground (
        arith,
        h id,
        count-insert (invoice_is id) r db.invoices,
        count_of_not_exists (invoice_is r.id) db.invoices fresh,
      ))
  write-InvoiceIdsDiffer (evolved p f keep w items) h id = rw w (
      omega
        (arith, h id, count-update (invoice_is id) p f db.invoices (λ s. rw (keep s).same_id refl)))

  pub write-ItemsHaveInvoice : InvoiceWrite db db' → ItemsHaveInvoice db → ItemsHaveInvoice db'
  write-ItemsHaveInvoice (untouched same items) h id missing = rw items (h id (rw (← same) missing))
  write-ItemsHaveInvoice (created r fresh w elsewhere sum) h id missing =
      elsewhere id (ground (arith, absent, inserted)) ∙ h id (ground (arith, absent, inserted))
    where
      absent : exists (invoice_is id) (insert r db.invoices) ≡ false
      absent = rw (← w) missing

      inserted :
          exists (invoice_is id) (insert r db.invoices)
          ≡ (if exists (invoice_is id) db.invoices then true else invoice_is id r)
      inserted = exists-insert (invoice_is id) r db.invoices
  write-ItemsHaveInvoice (evolved p f keep w items) h id missing = rw items (
      h id (
        sym (exists-update (invoice_is id) p f db.invoices (λ s. rw (keep s).same_id refl))
        ∙ rw (← w) missing))

-- An invoice that a table has is not one with an id that it has not.
ids_apart :
    (id : Uuid) (t : List Invoice)
    → exists (invoice_is id) t ≡ false
    → Every (λ r. (id == r.id) ≡ false) t
unfolding exists
ids_apart id [] h = tt
ids_apart id (r ∷ t) h = (ground arith, ids_apart id t (ground arith))

sum_items-same :
    (id : Uuid) (db db' : Db)
    → where_ (item_of id) db'.line_items ≡ where_ (item_of id) db.line_items
    → sum_items id db' ≡ sum_items id db
unfolding sum_items
sum_items-same id db db' same = ap (sum_by (λ (li : LineItem). li.amount_cents.cents)) same

sum_items_alike :
    (id : Uuid) (db db' : Db) → db'.line_items ≡ db.line_items → sum_items id db' ≡ sum_items id db
sum_items_alike id db db' same = sum_items-same id db db' (ap (where_ (item_of id)) same)

module _ (db db' : Db) where
  -- An invoice that evolves keeps its total and its items.
  kept-IsTotalled :
      (r r' : Invoice)
      → db'.line_items ≡ db.line_items
      → Evolved r r'
      → IsTotalled db r
      → IsTotalled db' r'
  kept-IsTotalled r r' items e h =
      rw (e.same_id, e.same_total) (sum_items_alike r.id db db' items ∙ h)

  pub write-Totals :
      InvoiceWrite db db' → Every (IsTotalled db) db.invoices → Every (IsTotalled db') db'.invoices
  write-Totals (untouched same items) h = subst (Every (IsTotalled db')) (sym same) (
      Every-mono (IsTotalled db) (IsTotalled db') db.invoices
        (λ r total. sum_items_alike r.id db db' items ∙ total) h)
  write-Totals (created new fresh w elsewhere sum) h = subst (Every (IsTotalled db')) (sym w) (
      Every-insert (IsTotalled db') new db.invoices sum (
        Every-mono (λ r. IsTotalled db r × ((new.id == r.id) ≡ false)) (IsTotalled db') db.invoices
          (λ r both. sum_items-same r.id db db' (elsewhere r.id both.1) ∙ both.0)
          (Every-both (IsTotalled db) (λ r. (new.id == r.id) ≡ false) db.invoices h
            (ids_apart new.id db.invoices fresh))))
  write-Totals (evolved p f keep w items) h = subst (Every (IsTotalled db')) (sym w) (
      Every-update (IsTotalled db) (IsTotalled db') p f db.invoices
        (λ r. kept-IsTotalled r (amend p f r) items (keep r)) h)
