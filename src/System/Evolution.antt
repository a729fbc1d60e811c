-- ===== src/System/Evolution.antt =====
-- How an invoice evolves under the UPDATEs of the service.
use mathlib.Core.Path.{subst}
use invoice_payment_service.Prelude.{
  ℕ, zero, suc, ◌≡◌, refl, sym, ◌∙◌, Bool, true, inl, inr, arith, Bool-cases, if◌then◌else◌,
}
use invoice_payment_service.Domain.{Uuid, Time}
use invoice_payment_service.Domain.Invoice.{
  InvoiceState, open_, state_eq, can_transition_to, Invoice,
}
use invoice_payment_service.Table.{amend}
use invoice_payment_service.InvoiceRepo.{in_state, transitioned}
use invoice_payment_service.InvoiceService.Lifecycle.{Run, here, step, state_eq_iff}
use invoice_payment_service.PaymentService.Statements.{open_invoice, paid_invoice}
use invoice_payment_service.System.{Txns.here}

-- What never changes of an invoice, and how its state moves: along the state machine.
pub record Evolved (r r' : Invoice) : Type 0 where
  pub same_id : r'.id ≡ r.id
  pub same_business : r'.business_id ≡ r.business_id
  pub same_customer : r'.customer_id ≡ r.customer_id
  pub same_currency : r'.currency ≡ r.currency
  pub same_total : r'.total_cents ≡ r.total_cents
  pub same_created : r'.created_at ≡ r.created_at
  pub moved : (n : ℕ) × Run n r.state r'.state

Run-trans : {m n : ℕ} {s t u : InvoiceState} → Run m s t → Run n t u → (k : ℕ) × Run k s u
Run-trans {n = n} here q = (n, q)
Run-trans (step h p) q = let (k, rest) = Run-trans p q in (suc k, step h rest)

pub Evolved-refl : (r : Invoice) → Evolved r r
Evolved-refl r = record {
  same_id = refl;
  same_business = refl;
  same_customer = refl;
  same_currency = refl;
  same_total = refl;
  same_created = refl;
  moved = (zero, here);
}

pub Evolved-trans : {r s t : Invoice} → Evolved r s → Evolved s t → Evolved r t
Evolved-trans h k = record {
  same_id = k.same_id ∙ h.same_id;
  same_business = k.same_business ∙ h.same_business;
  same_customer = k.same_customer ∙ h.same_customer;
  same_currency = k.same_currency ∙ h.same_currency;
  same_total = k.same_total ∙ h.same_total;
  same_created = k.same_created ∙ h.same_created;
  moved = Run-trans h.moved.1 k.moved.1;
}

-- One move of the state machine, of the rows in the state `from`.
amended :
    (p : Invoice → Bool) (f : Invoice → Invoice) (r : Invoice)
    → ((p r ≡ true) → Evolved r (f r))
    → Evolved r (amend p f r)
amended p f r h = elim (Bool-cases (p r)) [
  | inl hit ↦ subst (λ b. Evolved r (if b then f r else r)) (sym hit) (h hit)
  | inr miss ↦ subst (λ b. Evolved r (if b then f r else r)) (sym miss) (Evolved-refl r)
]

one_move :
    (r r' : Invoice) (from : InvoiceState)
    → can_transition_to from r'.state ≡ true
    → state_eq r.state from ≡ true
    → (n : ℕ) × Run n r.state r'.state
one_move r r' from legal same = (
  suc zero,
  subst (λ s. Run (suc zero) s r'.state) (sym ((state_eq_iff r.state from).0 same))
      (step legal here),
)

pub paid_evolves :
    (id : Uuid) (now : Time) (r : Invoice)
    → Evolved r (amend (open_invoice id) (paid_invoice now) r)
unfolding can_transition_to
paid_evolves id now r = amended (open_invoice id) (paid_invoice now) r λ hit. record {
  same_id = refl;
  same_business = refl;
  same_customer = refl;
  same_currency = refl;
  same_total = refl;
  same_created = refl;
  moved = one_move r (paid_invoice now r) open_ refl (ground arith);
}

pub transition_evolves :
    (b id : Uuid) (from to : InvoiceState) (now : Time)
    → can_transition_to from to ≡ true
    → (r : Invoice) → Evolved r (amend (in_state b id from) (transitioned to now) r)
transition_evolves b id from to now legal r =
    amended (in_state b id from) (transitioned to now) r λ hit. record {
      same_id = refl;
      same_business = refl;
      same_customer = refl;
      same_currency = refl;
      same_total = refl;
      same_created = refl;
      moved = one_move r (transitioned to now r) from legal (ground arith);
    }
