-- ===== src/InvoiceService/Lifecycle.antt =====
-- The invoice state machine (crates/invoice-service/src/domain/invoice.rs) as a graph.
use invoice_payment_service.Prelude.{
  ℕ, zero, suc, ◌+◌, ◌≤◌, ◌≡◌, refl, ◌↔◌, ◌⊎◌, inl, inr, true, false, arith,
}
use invoice_payment_service.Domain.Invoice.{
  InvoiceState, draft, open_, paid, void, uncollectible, is_terminal, can_transition_to, state_eq,
}

pub state_eq_iff : (a b : InvoiceState) → (state_eq a b ≡ true) ↔ (a ≡ b)
unfolding state_eq
state_eq_iff a b = ground arith

-- A run of n legal transitions from one state to another.
pub data Run : ℕ → InvoiceState → InvoiceState → Type 0 where
  here : {s : InvoiceState} → Run zero s s
  step : {n : ℕ} {s t u : InvoiceState} → can_transition_to s t ≡ true → Run n t u → Run (suc n) s u

-- How many transitions are left at most.
abbrev rank : InvoiceState → ℕ
rank draft = 2
rank open_ = 1
rank _ = 0

rank-le : (s : InvoiceState) → rank s ≤ 2
rank-le s = ground arith

rank_falls : (s t : InvoiceState) → can_transition_to s t ≡ true → suc (rank t) ≤ rank s
unfolding can_transition_to
rank_falls s t h = ground arith

Run-le-rank : {n : ℕ} {s t : InvoiceState} → Run n s t → n + rank t ≤ rank s
Run-le-rank here = omega arith
Run-le-rank (step {s = s} {t = t} h r) = omega (arith, rank_falls s t h, Run-le-rank r)

step_needs_open : (s t : InvoiceState) → can_transition_to s t ≡ true → is_terminal s ≡ false
unfolding can_transition_to is_terminal
step_needs_open s t h = ground arith

-- A run of legal transitions has two steps at most, and none if it begins in a terminal state.
pub lifecycle :
    {n : ℕ} {s t : InvoiceState} → Run n s t → (n ≤ 2) × ((n ≡ 0) ⊎ (is_terminal s ≡ false))
lifecycle here = (omega arith, inl refl)
lifecycle (step {s = s} {t = t} h r) =
    (omega (arith, rank_falls s t h, Run-le-rank r, rank-le s), inr (step_needs_open s t h))

-- A state that is not terminal has a run to a terminal one.
pub not_terminal_has_exit :
    (s : InvoiceState) → is_terminal s ≡ false → (t : InvoiceState) × Run 1 s t
unfolding is_terminal can_transition_to
not_terminal_has_exit draft h = (void, step refl here)
not_terminal_has_exit open_ h = (void, step refl here)
not_terminal_has_exit paid h = cc
not_terminal_has_exit void h = cc
not_terminal_has_exit uncollectible h = cc
