-- ===== src/Tests.antt =====
-- A small business with one customer and one open invoice: the data that the examples share.
mod Payments
mod Charging
mod Interleavings
mod Invoices
mod Webhooks
mod Basics
mod Api
mod Texts
mod Deliveries
mod Reconciling
mod Story
mod Settled
mod Answering
mod Reusing
mod Process
use invoice_payment_service.Prelude.{ℕ, ◌+◌, none, some, List, [], ◌∷◌, Text.decimal}
use invoice_payment_service.Prelude.Int.{pos}
use invoice_payment_service.Money.{from_cents}
use invoice_payment_service.Domain.Invoice.{Invoice, InvoiceState, open_}
use invoice_payment_service.Domain.Customer.{Customer}
use invoice_payment_service.Domain.Payment.{
  PaymentAttempt, PaymentStatus, PayRequest, PspResult, declined, IdempotencyKey, in_progress,
}
use invoice_payment_service.Db.{Db}
use invoice_payment_service.PaymentService.Types.{Crates, Psp, World, Claim}
use invoice_payment_service.PaymentService.Pay.{PayIds}

abbrev pub crates : Crates
crates = record { uuid_text = decimal; uuid_bytes = λ u. u ∷ []; sha256 = λ bytes. bytes }

abbrev pub invoice_in : InvoiceState → Invoice
invoice_in s = record {
  id = 10;
  business_id = 1;
  customer_id = 5;
  state = s;
  currency = "USD";
  total_cents = from_cents (pos 4200);
  finalized_at = some 7;
  paid_at = none;
  voided_at = none;
  version = 1;
  created_at = 3;
  updated_at = 7;
}

abbrev pub customer : Customer
customer = record {
  id = 5;
  business_id = 1;
  email = some "ada@example.com";
  name = some "Ada";
  created_at = 2;
  updated_at = 2;
}

abbrev pub attempt_with : PaymentStatus → PaymentAttempt
attempt_with s = record {
  id = 20;
  invoice_id = 10;
  business_id = 1;
  idempotency_key = "key-1";
  amount_cents = from_cents (pos 4200);
  currency = "USD";
  card_token = "tok_success";
  status = s;
  psp_ref = none;
  failure_code = none;
  last_error = none;
  attempt_count = 1;
  next_poll_at = none;
  created_at = 8;
  updated_at = 8;
}

abbrev pub key_row : IdempotencyKey
key_row = record {
  id = 30;
  business_id = 1;
  idempotency_key = "key-1";
  request_fingerprint = [];
  status = in_progress;
  attempt_id = some 20;
  response_status = none;
  response_body = none;
  created_at = 8;
  expires_at = 9;
}

abbrev pub db_with : List Invoice → List PaymentAttempt → List IdempotencyKey → Db
db_with invoices attempts keys = record {
  api_keys = [];
  customers = customer ∷ [];
  invoices = invoices;
  line_items = [];
  attempts = attempts;
  idempotency_keys = keys;
  endpoints = [];
  events = [];
  deliveries = [];
  next_sequence = 1;
}

abbrev pub fresh_db : Db
fresh_db = db_with (invoice_in open_ ∷ []) [] []

abbrev pub world_of : Db → World
world_of db = record { db = db; charges = [] }

abbrev pub ids_from : ℕ → PayIds
ids_from n = record {
  key_id = n;
  attempt_id = n + 1;
  event_id = n + 2;
  now = 100;
  finalize_now = 101;
}

abbrev pub accepting : Psp
accepting token amount key = PspResult.succeeded "psp-1"

abbrev pub declining : Psp
declining token amount key = declined "card_declined"

abbrev pub request : PayRequest
request = record { card_token = "tok_success" }

abbrev pub claim_of_attempt : Claim
claim_of_attempt = record {
  business_id = 1;
  invoice_id = 10;
  attempt_id = 20;
  key = "key-1";
  amount_cents = pos 4200;
}
