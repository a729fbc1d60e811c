-- ===== src/PspClient.antt =====
-- The client of the payment service provider (crates/invoice-service/src/psp/mod.rs) and the provider
-- that stands in for a real one (crates/mock-psp/src/main.rs). The HTTP transport between the two is
-- a parameter: an exchange ends with an error or with a status and a decoded body.
pub mod MockCharge
pub mod Race
pub mod Mock
pub mod Client
use invoice_payment_service.Prelude.{
  ℕ, String, Bool, Option, none, some, List, [], ◌∷◌, ◌&&◌, str_eq, leb, ltb, if◌then◌else◌,
}
use invoice_payment_service.Domain.Payment.{PspResult, declined, unknown}
use invoice_payment_service.Table.{find}

-- `enum PspResponse` of the client, `enum ChargeOutcome` of the provider.
pub data ChargeOutcome : Type 0 where
  succeeded : (psp_ref : String) → ChargeOutcome
  failed : (code : String) → ChargeOutcome

-- How the exchange ends: a transport error, which may be a timeout, or a status with the body as
-- `PspResponse`, if it is one.
pub data Exchange : Type 0 where
  send_error : (is_timeout : Bool) → Exchange
  answered : (status : ℕ) → Option ChargeOutcome → Exchange

-- The last `match` of `PspClient::charge`.
abbrev pub decode_body : Option ChargeOutcome → PspResult
decode_body none = unknown "psp_network_error"
decode_body (some (ChargeOutcome.succeeded psp_ref)) = PspResult.succeeded psp_ref
decode_body (some (ChargeOutcome.failed code)) = declined code

-- `PspClient::charge` behind `send`.
unfoldable pub classify : Exchange → PspResult
classify (send_error is_timeout) =
    unknown (if is_timeout then "psp_timeout" else "psp_network_error")
classify (answered status body) =
    if leb 500 status && ltb status 600 then unknown "psp_network_error" else decode_body body

-- `struct PspState`: an outcome for each idempotency key.
pub record Seen : Type 0 where
  pub key : String
  pub outcome : ChargeOutcome

abbrev pub seen_key : String → Seen → Bool
seen_key key s = str_eq s.key key

-- The `match` on the card token; none for the tokens that answer with an error status.
abbrev pub outcome_of : String → String → Option ChargeOutcome
outcome_of psp_ref token =
    if str_eq token "tok_success"
    then some (ChargeOutcome.succeeded psp_ref)
    else if str_eq token "tok_insufficient_funds"
    then some (ChargeOutcome.failed "insufficient_funds")
    else if str_eq token "tok_card_declined"
    then some (ChargeOutcome.failed "card_declined")
    else if str_eq token "tok_timeout"
    then some (ChargeOutcome.succeeded psp_ref)
    else none

-- The status of an answer with no outcome.
abbrev error_status : String → ℕ
error_status token = if str_eq token "tok_network_error" then 500 else 400

abbrev pub put : String → ChargeOutcome → List Seen → List Seen
put key o [] = record { key = key; outcome = o } ∷ []
put key o (s ∷ t) =
    if str_eq s.key key then record { key = key; outcome = o } ∷ t else s ∷ put key o t

abbrev remember : Option String → ChargeOutcome → List Seen → List Seen
remember none o t = t
remember (some key) o t = put key o t

-- `charge` of the provider with the lookup failed; `psp_ref` is the new UUID.
unfoldable pub run_charge :
    String → String → Option String → List Seen → (ℕ × Option ChargeOutcome) × List Seen
run_charge psp_ref token key t = elim (outcome_of psp_ref token) [
  | none ↦ ((error_status token, none), t)
  | some o ↦ ((200, some o), remember key o t)
]

abbrev pub lookup : Option String → List Seen → Option ChargeOutcome
lookup none t = none
lookup (some key) t = elim (find (seen_key key) t) [ none ↦ none | some s ↦ some s.outcome ]

-- `charge` of the provider: the status, the body and the state. The time that it sleeps is left out.
unfoldable pub charge :
    String → String → Option String → List Seen → (ℕ × Option ChargeOutcome) × List Seen
unfolding run_charge
charge psp_ref token key t = elim (lookup key t) [
  | some prev ↦ ((200, some prev), t)
  | none ↦ run_charge psp_ref token key t
]
