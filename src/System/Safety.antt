-- ===== src/System/Safety.antt =====
-- What the invariants say about payments and tenants, in every state of the service.
use mathlib.Core.Path.{subst}
use invoice_payment_service.Prelude.{
  ◌≡◌, refl, ◌∙◌, String, true, false, some, List, arith, Option, ◌==◌, Text.is_empty, Text.trim,
}
use invoice_payment_service.Prelude.Int.{pos}
use invoice_payment_service.Errors.{ok, err}
use invoice_payment_service.Domain.{Uuid}
use invoice_payment_service.Domain.Invoice.{Invoice, InvoiceState, open_, is_terminal, state_eq}
use invoice_payment_service.Domain.Payment.{
  PaymentStatus, PaymentAttempt, PayRequest, IdempotencyKey,
}
use invoice_payment_service.Table.{find, exists, sum_by}
use invoice_payment_service.Table.Laws.{exists_of_find}
use invoice_payment_service.Table.Every.{Every, Every-find, Every-mono}
use invoice_payment_service.Db.{Db}
use invoice_payment_service.InvoiceRepo.{invoice_of, invoice_is, sum_items}
use invoice_payment_service.PaymentService.Types.{Crates, Psp, Charge, World}
use invoice_payment_service.PaymentService.Statements.{attempt_is, key_of}
use invoice_payment_service.PaymentService.Pay.{PayIds, nobody, not_payable, pay}
use invoice_payment_service.PaymentService.Guards.{not_open_refused}
use invoice_payment_service.Auth.{require_api_key}
use invoice_payment_service.Routes.Handlers.{Outside}
use invoice_payment_service.Routes.App.{Route, v1, serve}
use invoice_payment_service.Routes.Isolation.{IsAlone, serve-SameForOthers}
use invoice_payment_service.Tenants.{SameForOthers}
use invoice_payment_service.System.{Txns}
use invoice_payment_service.System.Evolving.{Txns-EvolvesIn}
use invoice_payment_service.System.Invariant.{Inv, Txns-Inv}
use invoice_payment_service.System.Invariant.Totals.{IsTotalled, ItemsHaveInvoice}
use invoice_payment_service.System.Invariant.Backing.{Backed}
use invoice_payment_service.System.Invariant.Fits.{fits, fits-Run}

-- The invoice that an attempt is for, and what its items add up to.
amount_is_sum :
    {db : Db}
    → Inv db
    → (a : PaymentAttempt) → Backed db a
    → sum_items a.invoice_id db ≡ a.amount_cents.cents
amount_is_sum {db} v a b =
    let total =
      Every-find (IsTotalled db) (invoice_of a.business_id a.invoice_id) b.invoice db.invoices
        b.found v.totals in
    let same : b.invoice.id ≡ a.invoice_id = ground (
      arith,
      exists_of_find (invoice_of a.business_id a.invoice_id) b.invoice db.invoices b.found,
    ) in
    subst (λ i. sum_items i db ≡ a.amount_cents.cents) same (total ∙ b.amount)

-- Whatever transactions lead there from a state where the invariants hold: the amount of every payment
-- attempt, which is what the provider is asked for, is the sum of the line items of its invoice.
pub attempts_charge_sums :
    {db db' : Db}
    → Txns db db'
    → Inv db
    → Every (λ a. sum_items a.invoice_id db' ≡ a.amount_cents.cents) db'.attempts
attempts_charge_sums {db' = db'} r v =
    let v' = Txns-Inv r v in
    Every-mono (Backed db') (λ a. sum_items a.invoice_id db' ≡ a.amount_cents.cents) db'.attempts
      (amount_is_sum v') v'.backed

terminal_is_not_open : (s : InvoiceState) → is_terminal s ≡ true → state_eq s open_ ≡ false
unfolding is_terminal state_eq
terminal_is_not_open s h = ground arith

refused_when_closed :
    (c : Crates) (psp : Psp) (ids : PayIds) (b id : Uuid) (key : String) (req : PayRequest)
    (w : World) (inv : Invoice)
    → is_empty (trim req.card_token) ≡ false
    → find (invoice_of b id) w.db.invoices ≡ some inv
    → is_terminal inv.state ≡ true
    → exists (key_of b key) w.db.idempotency_keys ≡ false
    → exists (λ (k : IdempotencyKey). k.id == ids.key_id) w.db.idempotency_keys ≡ false
    → pay c psp ids nobody b id key req w ≡ (err (not_payable inv.state), w)
unfolding pay
refused_when_closed c psp ids b id key req w inv token found closed new_key new_id =
    rw (token, found)
      (not_open_refused c psp ids nobody b key req.card_token w inv new_key new_id
        (terminal_is_not_open inv.state closed))

-- Once an attempt has succeeded, in whatever state transactions lead to from there: the attempt's
-- invoice is found and is in a terminal state, and a payment request for it with a card token that is
-- not blank, a new key and a new id for the key is refused as not payable, with nothing written and the
-- provider not called. The invariants hold in the earlier state, and no other request comes between.
pub succeeded_then_refused :
    {db db' : Db}
    → Txns db db'
    → Inv db
    → (a : PaymentAttempt) → find (attempt_is a.id) db.attempts ≡ some a
    → a.status ≡ PaymentStatus.succeeded
    → (inv : Invoice) × (find (invoice_of a.business_id a.invoice_id) db'.invoices ≡ some inv)
      × (is_terminal inv.state ≡ true)
      × ((c : Crates) (psp : Psp) (ids : PayIds) (key : String) (req : PayRequest)
            (charges : List Charge)
          → is_empty (trim req.card_token) ≡ false
          → exists (key_of a.business_id key) db'.idempotency_keys ≡ false
          → exists (λ (k : IdempotencyKey). k.id == ids.key_id) db'.idempotency_keys ≡ false
          → pay c psp ids nobody a.business_id a.invoice_id key req
              (record { db = db'; charges = charges })
            ≡ (err (not_payable inv.state), record { db = db'; charges = charges }))
succeeded_then_refused {db} {db'} r v a there succeeded =
    let backed = Every-find (Backed db) (attempt_is a.id) a db.attempts there v.backed in
    let (inv, found, e) = Txns-EvolvesIn r a.business_id a.invoice_id backed.invoice backed.found in
    let closed =
      fits-Run PaymentStatus.succeeded e.moved.1
        (subst (λ p. fits p backed.invoice.state ≡ true) succeeded backed.state) in
    (
      inv,
      found,
      closed,
      λ c psp ids key req charges token new_key new_id.
          refused_when_closed c psp ids a.business_id a.invoice_id key req
            (record { db = db'; charges = charges }) inv token found closed new_key new_id,
    )

no_items_yet :
    (id : Uuid) (db : Db)
    → ItemsHaveInvoice db
    → exists (invoice_is id) db.invoices ≡ false
    → sum_items id db ≡ pos 0
unfolding sum_items sum_by
no_items_yet id db h fresh = rw (h id fresh) refl

-- In every state that transactions lead to from one where the invariants hold: a request that the
-- middleware lets through for a business leaves the rows of every other business as they are, in every
-- table that has a column for the business and whatever the route, if the id drawn for a new invoice is
-- not in use and no other request runs at the same time.
pub reachable-SameForOthers :
    {db : Db} (o : Outside) (b : Uuid) (authorization : Option String) (route : Route) (w : World)
    → Txns db w.db
    → Inv db
    → require_api_key o.crates.sha256 o.now authorization w.db ≡ ok b
    → IsAlone o
    → exists (invoice_is o.new_invoice.invoice_id) w.db.invoices ≡ false
    → SameForOthers b w.db (serve o (v1 authorization route) w).1.db
reachable-SameForOthers o b authorization route w r v through alone fresh =
    let v' = Txns-Inv r v in
    serve-SameForOthers o b authorization route w through alone v'.invoice_ids
      (no_items_yet o.new_invoice.invoice_id w.db v'.items fresh)
