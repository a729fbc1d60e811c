-- ===== src/PspClient/Client.antt =====
-- `PspClient::charge` of crates/invoice-service/src/psp/mod.rs as a whole: the request that it posts and
-- what it makes of the exchange.
use invoice_payment_service.Prelude.{
  ℕ, ◌≡◌, refl, String, Option, none, some, [], ◌∷◌, ◌&&◌, false, leb, ltb, Bool-cases, inl, inr,
  Text.concat,
}
use invoice_payment_service.Domain.Payment.{PspResult, declined, unknown}
use invoice_payment_service.Prelude.Int.{ℤ}
use invoice_payment_service.PaymentService.Types.{Psp}
use invoice_payment_service.PspClient.{
  Exchange, send_error, answered, ChargeOutcome, decode_body, classify,
}

-- The JSON body, with the URL that it is posted to.
pub record ChargeRequest : Type 0 where
  pub url : String
  pub card_token : String
  pub amount_cents : ℤ
  pub currency : String
  pub idempotency_key : String

abbrev charge_request : String → String → ℤ → String → ChargeRequest
charge_request base_url card_token amount_cents idempotency_key = record {
  url = concat (base_url ∷ "/charge" ∷ []);
  card_token = card_token;
  amount_cents = amount_cents;
  currency = "USD";
  idempotency_key = idempotency_key;
}

-- `PspClient::charge`: the provider as the payment flow sees it.
unfoldable pub client_charge : (http : ChargeRequest → Exchange) (base_url : String) → Psp
unfolding classify
client_charge http base_url card_token amount_cents idempotency_key =
    classify (http (charge_request base_url card_token amount_cents idempotency_key))

-- What an exchange was like that a result of the client stands for.
abbrev Answers : Exchange → PspResult → Type 0
Answers x (PspResult.succeeded psp_ref) =
    (status : ℕ) × (x ≡ answered status (some (ChargeOutcome.succeeded psp_ref)))
    × ((leb 500 status && ltb status 600) ≡ false)
Answers x (declined code) =
    (status : ℕ) × (x ≡ answered status (some (ChargeOutcome.failed code)))
    × ((leb 500 status && ltb status 600) ≡ false)
Answers x (unknown reason) = Unit

decoded :
    (status : ℕ) (body : Option ChargeOutcome)
    → (leb 500 status && ltb status 600) ≡ false
    → Answers (answered status body) (decode_body body)
decoded status none fine = tt
decoded status (some (ChargeOutcome.succeeded psp_ref)) fine = (status, refl, fine)
decoded status (some (ChargeOutcome.failed code)) fine = (status, refl, fine)

classify-Answers : (x : Exchange) → Answers x (classify x)
unfolding classify
classify-Answers (send_error is_timeout) = tt
classify-Answers (answered status body) = elim (Bool-cases (leb 500 status && ltb status 600)) [
  | inl broken ↦ rw broken tt
  | inr fine ↦ rw fine (decoded status body fine)
]

-- A charge counts as made, or as declined, only if the provider answered, with a status other than 5xx
-- and a body that says so.
client_charge-Answers :
    (http : ChargeRequest → Exchange) (base_url card_token : String) (amount_cents : ℤ)
    (key : String)
    → Answers
        (http (charge_request base_url card_token amount_cents key))
        (client_charge http base_url card_token amount_cents key)
unfolding client_charge
client_charge-Answers http base_url card_token amount_cents key =
    classify-Answers (http (charge_request base_url card_token amount_cents key))
