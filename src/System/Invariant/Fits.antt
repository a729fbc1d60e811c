-- ===== src/System/Invariant/Fits.antt =====
-- The states of an invoice that fit an attempt, by the status of the attempt.
use invoice_payment_service.Prelude.{ℕ, ◌≡◌, Bool, true, false, List, [], ◌∷◌, arith, ◌==◌}
use invoice_payment_service.Domain.{Uuid, Time}
use invoice_payment_service.Domain.Invoice.{
  InvoiceState, draft, open_, is_terminal, state_eq, can_transition_to, Invoice,
}
use invoice_payment_service.Domain.Payment.{PaymentStatus}
use invoice_payment_service.Table.{update}
use invoice_payment_service.Table.Every.{Every}
use invoice_payment_service.InvoiceService.Lifecycle.{Run, here, step}
use invoice_payment_service.PaymentService.Statements.{open_invoice, paid_invoice}

abbrev pub left_draft : InvoiceState → Bool
left_draft draft = false
left_draft _ = true

-- The states that an invoice can be in beside an attempt with the status.
abbrev pub fits : PaymentStatus → InvoiceState → Bool
fits PaymentStatus.succeeded s = is_terminal s
fits _ s = left_draft s

fits_move :
    (p : PaymentStatus) (s t : InvoiceState)
    → can_transition_to s t ≡ true
    → fits p s ≡ true
    → fits p t ≡ true
unfolding can_transition_to is_terminal
fits_move p s t legal h = ground arith

pub fits-Run :
    {n : ℕ} (p : PaymentStatus) {s t : InvoiceState} → Run n s t → fits p s ≡ true → fits p t ≡ true
fits-Run p here h = h
fits-Run p (step {s = s} {t = t} legal r) h = fits-Run p r (fits_move p s t legal h)

pub open_has_left_draft : (s : InvoiceState) → state_eq s open_ ≡ true → left_draft s ≡ true
unfolding state_eq
open_has_left_draft s h = ground arith

-- After the UPDATE to 'paid' the invoice is not open.
pub none_open :
    (id : Uuid) (now : Time) (t : List Invoice)
    → Every (λ r. open_invoice id r ≡ false) (update (open_invoice id) (paid_invoice now) t)
unfolding update state_eq
none_open id now [] = tt
none_open id now (r ∷ t) = (ground arith, none_open id now t)

pub terminal_if_closed :
    (id : Uuid) (r : Invoice)
    → (r.id == id) ≡ true
    → left_draft r.state ≡ true
    → open_invoice id r ≡ false
    → is_terminal r.state ≡ true
unfolding is_terminal state_eq
terminal_if_closed id r same left closed = ground arith
