-- ===== src/CustomerService.antt =====
-- Customers (crates/invoice-service/src/services/customer_service.rs and
-- crates/invoice-service/src/repositories/customer_repo.rs). The comparison of `citext` values, which
-- folds case by the locale of the database, is a parameter.
pub mod Create
use invoice_payment_service.Prelude.{
  String, Bool, false, not, Option, none, some, List, [], ◌∷◌, ◌&&◌, ◌==◌, if◌then◌else◌, map,
  Text.is_empty, Text.contains_char, Text.split_at,
}
use invoice_payment_service.Prelude.Int.{ℤ}
use invoice_payment_service.Errors.{
  FieldError, field_error, AppError, not_found, validation, conflict, SqlxError, from_sqlx,
  is_unique_violation, Result, ok, err,
}
use invoice_payment_service.Domain.{Uuid, Time}
use invoice_payment_service.Domain.Customer.{
  Customer, CreateCustomerRequest, CustomerResponse, customer_response,
}
use invoice_payment_service.Table.{find, exists, insert}
use invoice_payment_service.Db.{Db, Statement, Action, unique_violation}
use invoice_payment_service.Pagination.{CursorCodec, Page, list_page}

-- The last arm of `is_plausible_email`: there is a text behind the first '@'.
abbrev plausible_parts : String × Option String → Bool
plausible_parts (a, none) = false
plausible_parts (a, some b) = not (is_empty a) && contains_char 46 b

-- `is_plausible_email`
unfoldable is_plausible_email : String → Bool
unfolding contains_char split_at is_empty
is_plausible_email s = plausible_parts (split_at 64 s)

abbrev email_errors : Option String → List FieldError → List FieldError
email_errors none rest = rest
email_errors (some email) rest =
    if is_plausible_email email
    then rest
    else field_error "email" "must be a valid email address" ∷ rest

abbrev name_errors : Option String → Option String → List FieldError
name_errors none none = field_error "name" "provide at least a name or an email" ∷ []
name_errors _ _ = []

-- The errors that `create` collects.
unfoldable pub request_errors : CreateCustomerRequest → List FieldError
unfolding is_plausible_email
request_errors req = email_errors req.email (name_errors req.email req.name)

abbrev pub new_customer : Uuid → Uuid → Option String → Option String → Time → Customer
new_customer id business_id email name now = record {
  id = id;
  business_id = business_id;
  email = email;
  name = name;
  created_at = now;
  updated_at = now;
}

module _ (citext_eq : String → String → Bool) where
  -- The unique index on (business_id, email), which ignores customers with no email.
  abbrev pub same_email : Option String → Option String → Bool
  same_email (some a) (some b) = citext_eq a b
  same_email _ _ = false

  abbrev pub email_taken : Uuid → Option String → Customer → Bool
  email_taken business_id email c = c.business_id == business_id && same_email c.email email

  -- `customer_repo::insert`
  unfoldable pub insert_customer : Customer → Statement Customer
  insert_customer c db =
      if exists (λ (r : Customer). r.id == c.id) db.customers
      then (err (unique_violation "customers_pkey"), db)
      else if exists (email_taken c.business_id c.email) db.customers
      then (err (unique_violation "uq_customers_business_email"), db)
      else (ok c, record db { customers = insert c db.customers })

  -- The `match` on the result of the INSERT.
  abbrev customer_refused : SqlxError → AppError
  customer_refused e =
      if is_unique_violation e
      then conflict "customer_email_exists"
          "a customer with this email already exists for this business"
      else from_sqlx e

  abbrev created_or_refused : Result Customer SqlxError × Db → Result CustomerResponse AppError × Db
  created_or_refused (ok c, db) = (ok (customer_response c), db)
  created_or_refused (err e, db) = (err (customer_refused e), db)

  abbrev pub create_checked : Customer → List FieldError → Action CustomerResponse
  create_checked c [] db = created_or_refused (insert_customer c db)
  create_checked c (e ∷ errors) db = (err (validation (e ∷ errors)), db)

  -- `create`
  unfoldable pub create : Uuid → Time → Uuid → CreateCustomerRequest → Action CustomerResponse
  unfolding insert_customer request_errors
  create id now business_id req =
      create_checked (new_customer id business_id req.email req.name now) (request_errors req)

abbrev pub customer_of : Uuid → Uuid → Customer → Bool
customer_of business_id id c = c.id == id && c.business_id == business_id

-- `get`
unfoldable pub get : Uuid → Uuid → Db → Result CustomerResponse AppError
get business_id id db = elim (find (customer_of business_id id) db.customers) [
  | none ↦ err (not_found "customer not found")
  | some c ↦ ok (customer_response c)
]

-- `list`
unfoldable pub list : CursorCodec → Uuid → Option ℤ → Option String → Db → Page CustomerResponse
list codec business_id limit cursor db =
    let p =
      list_page (λ (c : Customer). c.created_at) (λ (c : Customer). c.id) codec
        (λ (c : Customer). c.business_id == business_id) limit cursor db.customers in
    record { data_ = map customer_response p.data_; next_cursor = p.next_cursor }
