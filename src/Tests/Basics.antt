-- ===== src/Tests/Basics.antt =====
-- Pages, API keys and the provider at concrete inputs.
use invoice_payment_service.Prelude.{
  ℕ, String, ◌≡◌, ◌↔◌, refl, Bool, true, none, some, List, [], ◌∷◌, Text.as_bytes,
}
use invoice_payment_service.Errors.{ok}
use invoice_payment_service.Domain.{Uuid, Time}
use invoice_payment_service.Domain.Invoice.{Invoice, open_}
use invoice_payment_service.Domain.ApiKey.{ApiKey}
use invoice_payment_service.Table.{find}
use invoice_payment_service.Db.{Db}
use invoice_payment_service.Pagination.{CursorCodec}
use invoice_payment_service.Auth.{constant_time_eq, require_api_key, hash_key}
use invoice_payment_service.Auth.Keys.{constant_time_eq_iff, require_api_key-HasKey, HasKey}
use invoice_payment_service.PspClient.{ChargeOutcome, Seen, charge}
use invoice_payment_service.PspClient.MockCharge.{outcome_for_good, served}
use invoice_payment_service.PspClient.Mock.{ChargeRequest}
use invoice_payment_service.Prelude.Int.{pos}
use invoice_payment_service.Tests.{invoice_in, fresh_db}

abbrev pub codec : CursorCodec
codec = record { encode_cursor = λ t i. "cursor"; decode_cursor = λ s. none }

abbrev pub created : Invoice → Time
created r = r.created_at

abbrev pub id_of : Invoice → Uuid
id_of r = r.id

abbrev pub any : Invoice → Bool
any r = true

abbrev rows : List Invoice
rows = invoice_in open_ ∷ invoice_in open_ ∷ []

abbrev left : List ℕ
left = 1 ∷ 255 ∷ []

abbrev right : List ℕ
right = 1 ∷ 254 ∷ []

constant_time_eq_iff_example : (constant_time_eq left right ≡ true) ↔ (left ≡ right)
constant_time_eq_iff_example = constant_time_eq_iff left right

abbrev sum_hash : List ℕ → List ℕ
sum_hash bytes = bytes

abbrev pub secret : String
secret = "dpk_test_abcdefgh1234"

abbrev pub key : ApiKey
key = record {
  id = 3;
  business_id = 1;
  name = none;
  prefix = "dpk_test_abcdefgh";
  key_hash = hash_key sum_hash secret;
  last_four = "1234";
  created_at = 1;
  last_used_at = none;
  revoked_at = none;
  expires_at = none;
}

abbrev pub keyed_db : Db
keyed_db = record fresh_db { api_keys = key ∷ [] }

let_in : require_api_key sum_hash 100 (some "Bearer dpk_test_abcdefgh1234") keyed_db ≡ ok 1
unfolding require_api_key find as_bytes
let_in = refl

require_api_key-HasKey_example :
    HasKey sum_hash 100 (some "Bearer dpk_test_abcdefgh1234") keyed_db 1
require_api_key-HasKey_example =
    require_api_key-HasKey sum_hash 100 (some "Bearer dpk_test_abcdefgh1234") keyed_db 1 let_in

abbrev seen_db : List Seen
seen_db = record { key = "key-1"; outcome = ChargeOutcome.succeeded "psp-1" } ∷ []

charged :
    charge "psp-1" "tok_success" (some "key-1") []
    ≡ ((200, some (ChargeOutcome.succeeded "psp-1")), seen_db)
unfolding charge find
charged = refl

abbrev meanwhile : List (String × ChargeRequest)
meanwhile =
    (
      "psp-8",
      record { card_token = "tok_success"; amount_cents = pos 700; idempotency_key = some "key-2" },
    )
    ∷ (
      "psp-9",
      record { card_token = "tok_timeout"; amount_cents = pos 9; idempotency_key = some "key-1" },
    )
    ∷ []

outcome_for_good_example :
    charge "psp-2" "tok_card_declined" (some "key-1") (served meanwhile seen_db)
    ≡ ((200, some (ChargeOutcome.succeeded "psp-1")), served meanwhile seen_db)
outcome_for_good_example =
    outcome_for_good "psp-1" "psp-2" "tok_success" "tok_card_declined" "key-1" meanwhile [] seen_db
      (ChargeOutcome.succeeded "psp-1") charged
