-- ===== src/Domain/Invoice.antt =====
-- Invoices, line items and the invoice state machine (crates/invoice-service/src/domain/invoice.rs).
use invoice_payment_service.Prelude.{ℕ, String, Bool, true, false, Option, List, map}
use invoice_payment_service.Prelude.Int.{ℤ}
use invoice_payment_service.Money.{Money}
use invoice_payment_service.Domain.{Uuid, Time}

-- `enum InvoiceState`
pub data InvoiceState : Type 0 where
  draft open_ paid void uncollectible : InvoiceState

-- `InvoiceState::as_str`
unfoldable pub as_str : InvoiceState → String
as_str draft = "draft"
as_str open_ = "open"
as_str paid = "paid"
as_str void = "void"
as_str uncollectible = "uncollectible"

-- `InvoiceState::is_terminal`
unfoldable pub is_terminal : InvoiceState → Bool
is_terminal paid = true
is_terminal void = true
is_terminal uncollectible = true
is_terminal _ = false

-- `InvoiceState::can_transition_to`
unfoldable pub can_transition_to : InvoiceState → InvoiceState → Bool
can_transition_to draft open_ = true
can_transition_to draft void = true
can_transition_to open_ paid = true
can_transition_to open_ void = true
can_transition_to open_ uncollectible = true
can_transition_to _ _ = false

-- The derived `PartialEq`.
unfoldable pub state_eq : InvoiceState → InvoiceState → Bool
state_eq draft draft = true
state_eq open_ open_ = true
state_eq paid paid = true
state_eq void void = true
state_eq uncollectible uncollectible = true
state_eq _ _ = false

-- `struct Invoice`, a row of `invoices`.
pub record Invoice : Type 0 where
  pub id : Uuid
  pub business_id : Uuid
  pub customer_id : Uuid
  pub state : InvoiceState
  pub currency : String
  pub total_cents : Money
  pub finalized_at : Option Time
  pub paid_at : Option Time
  pub voided_at : Option Time
  pub version : ℕ
  pub created_at : Time
  pub updated_at : Time

-- `struct LineItem`, a row of `invoice_line_items`.
pub record LineItem : Type 0 where
  pub id : Uuid
  pub invoice_id : Uuid
  pub description : String
  pub quantity : ℤ
  pub unit_amount_cents : Money
  pub amount_cents : Money
  pub position : ℤ

-- `struct CreateLineItem`
pub record CreateLineItem : Type 0 where
  pub description : String
  pub quantity : ℤ
  pub unit_amount_cents : ℤ

-- `struct CreateInvoiceRequest`
pub record CreateInvoiceRequest : Type 0 where
  pub customer_id : Uuid
  pub line_items : List CreateLineItem

-- `struct LineItemResponse`
pub record LineItemResponse : Type 0 where
  pub description : String
  pub quantity : ℤ
  pub unit_amount_cents : ℤ
  pub amount_cents : ℤ

-- `From<LineItem> for LineItemResponse`
unfoldable pub line_item_response : LineItem → LineItemResponse
line_item_response li = record {
  description = li.description;
  quantity = li.quantity;
  unit_amount_cents = li.unit_amount_cents.cents;
  amount_cents = li.amount_cents.cents;
}

-- `struct InvoiceResponse`
pub record InvoiceResponse : Type 0 where
  pub id : Uuid
  pub customer_id : Uuid
  pub state : InvoiceState
  pub currency : String
  pub total_cents : ℤ
  pub line_items : List LineItemResponse
  pub finalized_at : Option Time
  pub paid_at : Option Time
  pub created_at : Time

-- `InvoiceResponse::from_parts`
unfoldable pub from_parts : Invoice → List LineItem → InvoiceResponse
unfolding line_item_response
from_parts inv items = record {
  id = inv.id;
  customer_id = inv.customer_id;
  state = inv.state;
  currency = inv.currency;
  total_cents = inv.total_cents.cents;
  line_items = map line_item_response items;
  finalized_at = inv.finalized_at;
  paid_at = inv.paid_at;
  created_at = inv.created_at;
}
