-- ===== src/CustomerService/Create.antt =====
-- The emails of a business's customers are different.
use invoice_payment_service.Prelude.{
  ◌≤◌, String, ◌≡◌, inl, inr, Bool, true, Option, none, some, List, [], ◌∷◌, arith, Bool-cases,
}
use invoice_payment_service.Errors.{FieldError}
use invoice_payment_service.Domain.{Uuid, Time}
use invoice_payment_service.Domain.Customer.{Customer, CreateCustomerRequest}
use invoice_payment_service.Table.{count}
use invoice_payment_service.Table.Laws.{count-insert, count-le, count_of_not_exists}
use invoice_payment_service.Db.{Db}
use invoice_payment_service.CustomerService.{
  same_email, email_taken, insert_customer, create_checked, new_customer, request_errors, create,
}

module _ (citext_eq : String → String → Bool)
    (symmetric : (a b : String) → citext_eq a b ≡ true → citext_eq b a ≡ true)
    (transitive : (a b c : String)
      → citext_eq a b ≡ true
      → citext_eq b c ≡ true
      → citext_eq a c ≡ true) where
  -- No business has two customers with the same email.
  abbrev pub EmailsDiffer : Db → Type 0
  EmailsDiffer db =
      (business_id : Uuid) (email : Option String)
      → count (email_taken citext_eq business_id email) db.customers ≤ 1

  same_email_trans :
      (a b c : Option String)
      → same_email citext_eq a b ≡ true
      → same_email citext_eq c b ≡ true
      → same_email citext_eq a c ≡ true
  same_email_trans (some a) (some b) (some c) h k = transitive a b c h (symmetric c b k)
  same_email_trans none b c h k = cc
  same_email_trans (some a) none c h k = cc
  same_email_trans (some a) (some b) none h k = cc

  -- Whoever has an email that the new customer has too takes the new customer's email.
  taken_alike :
      (business_id : Uuid) (email : Option String) (c r : Customer)
      → email_taken citext_eq business_id email c ≡ true
      → email_taken citext_eq business_id email r ≡ true
      → email_taken citext_eq c.business_id c.email r ≡ true
  taken_alike business_id email c r h k = ground (arith, same_email_trans r.email email c.email)

  insert_customer-EmailsDiffer :
      (c : Customer) (db : Db) → EmailsDiffer db → EmailsDiffer (insert_customer citext_eq c db).1
  unfolding insert_customer
  insert_customer-EmailsDiffer c db h business_id email =
      elim (Bool-cases (email_taken citext_eq business_id email c)) [
        | inr other ↦ ground (
          arith,
          h business_id email,
          count-insert (email_taken citext_eq business_id email) c db.customers,
        )
        | inl same ↦ ground (
          arith,
          h business_id email,
          count-insert (email_taken citext_eq business_id email) c db.customers,
          count-le (email_taken citext_eq business_id email)
              (email_taken citext_eq c.business_id c.email) db.customers
              (λ r. taken_alike business_id email c r same),
          count_of_not_exists (email_taken citext_eq c.business_id c.email) db.customers,
        )
      ]

  checked-EmailsDiffer :
      (c : Customer) (errors : List FieldError) (db : Db)
      → EmailsDiffer db
      → EmailsDiffer (create_checked citext_eq c errors db).1
  unfolding insert_customer
  checked-EmailsDiffer c [] db h =
      λ business_id email. ground (arith, insert_customer-EmailsDiffer c db h business_id email)
  checked-EmailsDiffer c (e ∷ errors) db h = h

  -- Creating a customer keeps the emails of each business different, if the comparison of emails is
  -- symmetric and transitive.
  pub create-EmailsDiffer :
      (id : Uuid) (now : Time) (business_id : Uuid) (req : CreateCustomerRequest) (db : Db)
      → EmailsDiffer db
      → EmailsDiffer (create citext_eq id now business_id req db).1
  unfolding create
  create-EmailsDiffer id now business_id req db h =
      checked-EmailsDiffer (new_customer id business_id req.email req.name now) (request_errors req)
        db h
