-- ===== src/System/Evolving.antt =====
-- What the transactions of the service do to an invoice.
use invoice_payment_service.Prelude.{◌≡◌, refl, ◌∙◌, ap, some}
use invoice_payment_service.Domain.{Uuid}
use invoice_payment_service.Domain.Invoice.{Invoice}
use invoice_payment_service.Table.{find, amend}
use invoice_payment_service.Table.Laws.{find-insert, find-update, exists_of_find}
use invoice_payment_service.Db.{Db}
use invoice_payment_service.InvoiceRepo.{invoice_of}
use invoice_payment_service.System.{Txn, Txns, later}
use invoice_payment_service.System.Evolution.{Evolved, Evolved-refl, Evolved-trans}
use invoice_payment_service.System.Writes.{
  InvoiceWrite, Txn-InvoiceWrite, created, evolved, untouched,
}

-- An invoice that a business sees is there afterwards, and has evolved.
abbrev pub EvolvesIn : Uuid → Uuid → Invoice → Db → Type 0
EvolvesIn b id r db = (r' : Invoice) × (find (invoice_of b id) db.invoices ≡ some r') × Evolved r r'

write-EvolvesIn :
    (b id : Uuid) (r : Invoice) (db db' : Db)
    → InvoiceWrite db db'
    → find (invoice_of b id) db.invoices ≡ some r
    → EvolvesIn b id r db'
write-EvolvesIn b id r db db' (untouched same items) found =
    (r, ap (find (invoice_of b id)) same ∙ found, Evolved-refl r)
write-EvolvesIn b id r db db' (created new fresh w elsewhere sum) found = (
  r,
  ap (find (invoice_of b id)) w
      ∙ find-insert (invoice_of b id) new db.invoices
      ∙ rw (exists_of_find (invoice_of b id) r db.invoices found).0 found,
  Evolved-refl r,
)
write-EvolvesIn b id r db db' (evolved p f keep w items) found = (
  amend p f r,
  ap (find (invoice_of b id)) w
      ∙ find-update (invoice_of b id) p f db.invoices
          (λ s. rw ((keep s).same_id, (keep s).same_business) refl)
      ∙ rw found refl,
  keep r,
)

pub Txn-EvolvesIn :
    (b id : Uuid) (r : Invoice) {db db' : Db}
    → Txn db db'
    → find (invoice_of b id) db.invoices ≡ some r
    → EvolvesIn b id r db'
Txn-EvolvesIn b id r {db} {db'} t found = write-EvolvesIn b id r db db' (Txn-InvoiceWrite t) found

-- Whatever transactions of requests and tasks come in between, an invoice of a business is there for it
-- for ever: with the same id, business, customer, currency, total and time of creation, and in a state
-- that the state machine allows to be reached from the earlier one.
pub Txns-EvolvesIn :
    {db db' : Db}
    → Txns db db'
    → (business_id id : Uuid) (r : Invoice) → find (invoice_of business_id id) db.invoices ≡ some r
    → EvolvesIn business_id id r db'
Txns-EvolvesIn Txns.here business_id id r found = (r, found, Evolved-refl r)
Txns-EvolvesIn (later h t) business_id id r found =
    let (s, seen, before) = Txns-EvolvesIn h business_id id r found in
    let (s', there, after) = Txn-EvolvesIn business_id id s t seen in
    (s', there, Evolved-trans before after)
