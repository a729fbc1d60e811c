-- ===== src/PspClient/Mock.antt =====
-- The mock provider at the other end of the client: what serde makes of the body that the client posts
-- to `/charge` (crates/mock-psp/src/main.rs), and what the client gets for it.
use invoice_payment_service.Prelude.{String, Option, some, List}
use invoice_payment_service.Prelude.Int.{ℤ}
use invoice_payment_service.PspClient.{Exchange, answered, Seen, charge}
use invoice_payment_service.PspClient.Client

-- `struct ChargeRequest` of the provider, which has no field for the currency.
pub record ChargeRequest : Type 0 where
  pub card_token : String
  pub amount_cents : ℤ
  pub idempotency_key : Option String

abbrev received : Client.ChargeRequest → ChargeRequest
received body = record {
  card_token = body.card_token;
  amount_cents = body.amount_cents;
  idempotency_key = some body.idempotency_key;
}

-- The route `/charge`, where the answer arrives in time.
unfoldable pub post_charge : (psp_ref : String) → List Seen → Client.ChargeRequest → Exchange
unfolding charge
post_charge psp_ref seen body =
    let req = received body in
    let (status, outcome) = (charge psp_ref req.card_token req.idempotency_key seen).0 in
    answered status outcome
