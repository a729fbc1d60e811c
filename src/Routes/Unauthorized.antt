-- ===== src/Routes/Unauthorized.antt =====
-- Requests that the API-key middleware refuses.
use invoice_payment_service.Prelude.{
  ℕ, String, ◌≡◌, refl, Option, none, some, List, [], arith, Option-cases, Bool-cases, inl, inr,
}
use invoice_payment_service.Errors.{
  AppError, unauthorized, ErrorDetail, into_response, parts, message_and_details, display, err,
}
use invoice_payment_service.Domain.{Time}
use invoice_payment_service.Table.{find}
use invoice_payment_service.Db.{Db}
use invoice_payment_service.PaymentService.Types.{World}
use invoice_payment_service.Domain.ApiKey.{ApiKey}
use invoice_payment_service.Auth.{
  require_api_key, check_hash, constant_time_eq, bearer_token, usable, hash_key, derive_prefix,
}
use invoice_payment_service.Routes.Responses.{error_response, error}
use invoice_payment_service.Routes.Handlers.{Outside}
use invoice_payment_service.Routes.App.{Route, v1, serve}

abbrev pub unauthorized_body : ErrorDetail
unauthorized_body = record {
  code = "unauthorized";
  kind = "authentication_error";
  message = "authentication required or invalid credentials";
  details = [];
}

checked_unauthorized :
    (hash : List ℕ) (found : Option ApiKey) (e : AppError)
    → check_hash hash found ≡ err e
    → e ≡ unauthorized
checked_unauthorized hash none e h = ground arith
checked_unauthorized hash (some k) e h = elim (Bool-cases (constant_time_eq k.key_hash hash)) [
  | inl right ↦ absurd (ground arith)
  | inr wrong ↦ ground arith
]

require_api_key_unauthorized :
    (sha256 : List ℕ → List ℕ) (now : Time) (header : Option String) (db : Db) (e : AppError)
    → require_api_key sha256 now header db ≡ err e
    → e ≡ unauthorized
unfolding require_api_key
require_api_key_unauthorized sha256 now header db e h = elim (Option-cases (bearer_token header)) [
  | inl missing ↦ ground arith
  | inr (token, given) ↦
      checked_unauthorized (hash_key sha256 token)
        (find (usable now (derive_prefix token)) db.api_keys) e (ground arith)
]

-- Whatever the route, a request that the middleware does not let through is answered with the status
-- 401 and the body of `unauthorized`, and leaves the database and the charges as they are.
pub serve_unauthorized :
    (o : Outside) (authorization : Option String) (route : Route) (w : World) (e : AppError)
    → require_api_key o.crates.sha256 o.now authorization w.db ≡ err e
    → serve o (v1 authorization route) w ≡ ((401, error unauthorized_body), w)
unfolding serve error_response into_response parts message_and_details display
serve_unauthorized o authorization route w e refused =
    rw (refused, require_api_key_unauthorized o.crates.sha256 o.now authorization w.db e refused)
      refl
