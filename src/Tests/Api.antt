-- ===== src/Tests/Api.antt =====
-- Requests of the API at concrete inputs.
use invoice_payment_service.Prelude.{
  ℕ, ◌+◌, ◌≡◌, refl, String, str_eq, Bool, false, ◌==◌, none, some, List, [], ◌∷◌, arith,
  Text.as_bytes,
}
use invoice_payment_service.Prelude.Int.{pos}
use invoice_payment_service.Errors.{ok, err, unauthorized}
use invoice_payment_service.Domain.ApiKey.{ApiKey, CreateApiKeyResponse}
use invoice_payment_service.Domain.{Time}
use invoice_payment_service.Table.{find, where_, sum_by, exists, count}
use invoice_payment_service.Db.{Db}
use invoice_payment_service.InvoiceRepo.{sum_items}
use invoice_payment_service.InvoiceService.{NewInvoice}
use invoice_payment_service.PaymentService.Types.{World}
use invoice_payment_service.PaymentService.Pay.{nobody}
use invoice_payment_service.Auth.{
  require_api_key, create_key, revoke, prefix_is, derive_prefix, full_key, env_or_test,
}
use invoice_payment_service.Auth.Bearer.{has_whitespace, bearer}
use invoice_payment_service.Auth.Lifecycle.{created_key_lifecycle}
use invoice_payment_service.Tenants.{InvoiceIdsDiffer}
use invoice_payment_service.Routes.Responses.{error}
use invoice_payment_service.Routes.Handlers.{Outside}
use invoice_payment_service.Routes.App.{invoices, post_void, v1, serve}
use invoice_payment_service.Routes.Unauthorized.{serve_unauthorized, unauthorized_body}
use invoice_payment_service.Tests.{crates, accepting, ids_from, world_of, fresh_db}
use invoice_payment_service.Tests.Basics.{codec, keyed_db}

abbrev pub new_invoice : NewInvoice
new_invoice = record { invoice_id = 60; item_id = λ i. 61 + i; event_id = 70; now = 99 }

abbrev pub hex : List ℕ → String
hex bytes = "00"

abbrev pub email_eq : String → String → Bool
email_eq a b = str_eq a b

abbrev pub outside : Outside
outside = record {
  crates = crates;
  psp = accepting;
  codec = codec;
  hex = hex;
  citext_eq = email_eq;
  key_random = "abcdefgh1234";
  secret = 7 ∷ [];
  new_id = 200;
  new_invoice = new_invoice;
  pay_ids = ids_from 300;
  now = 100;
  others = nobody;
  race = λ db. db;
}

abbrev world : World
world = world_of keyed_db

let_in :
    require_api_key outside.crates.sha256 100 (some "Bearer dpk_test_abcdefgh1234") world.db ≡ ok 1
unfolding require_api_key find as_bytes
let_in = refl

ids_differ : InvoiceIdsDiffer world.db
unfolding count
ids_differ id = ground arith

no_items_yet : sum_items 60 world.db ≡ pos 0
unfolding sum_items where_ sum_by
no_items_yet = refl

shut_out :
    require_api_key outside.crates.sha256 100 (some "Bearer dpk_test_abcdefgh9999") world.db
    ≡ err unauthorized
unfolding require_api_key find as_bytes
shut_out = refl

serve_unauthorized_example :
    serve outside (v1 (some "Bearer dpk_test_abcdefgh9999") (invoices (post_void 10))) world
    ≡ ((401, error unauthorized_body), world)
serve_unauthorized_example =
    serve_unauthorized outside (some "Bearer dpk_test_abcdefgh9999") (invoices (post_void 10)) world
      unauthorized shut_out

no_space : has_whitespace "abcdefgh1234" ≡ false
unfolding has_whitespace
no_space = refl

no_key_yet : exists (λ (r : ApiKey). r.id == 200) fresh_db.api_keys ≡ false
unfolding exists
no_key_yet = refl

no_prefix_yet :
    exists
      (prefix_is (derive_prefix (full_key (env_or_test (some "live")) "abcdefgh1234")))
      fresh_db.api_keys
    ≡ false
unfolding exists
no_prefix_yet = refl

created_key_lifecycle_example :
    (resp : CreateApiKeyResponse) × (db' : Db) × (create_key crates.sha256 "abcdefgh1234" 200 100 1
        none
        (some "live")
        fresh_db
      ≡ (ok resp, db'))
    × ((later : Time) → require_api_key crates.sha256 later (bearer resp.key) db' ≡ ok 1)
    × ((at : Time)
        → (db'' : Db) × (revoke at 1 resp.id db' ≡ (ok tt, db''))
          × ((later : Time)
              → require_api_key crates.sha256 later (bearer resp.key) db'' ≡ err unauthorized))
created_key_lifecycle_example =
    created_key_lifecycle crates.sha256 "abcdefgh1234" 200 100 1 none (some "live") fresh_db
      no_space no_key_yet no_prefix_yet
