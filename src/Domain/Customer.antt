-- ===== src/Domain/Customer.antt =====
-- Customers (crates/invoice-service/src/domain/customer.rs).
use invoice_payment_service.Prelude.{String, Option}
use invoice_payment_service.Domain.{Uuid, Time}

-- `struct Customer`
pub record Customer : Type 0 where
  pub id : Uuid
  pub business_id : Uuid
  pub email : Option String
  pub name : Option String
  pub created_at : Time
  pub updated_at : Time

-- `struct CreateCustomerRequest`
pub record CreateCustomerRequest : Type 0 where
  pub email : Option String
  pub name : Option String

-- `struct CustomerResponse`
pub record CustomerResponse : Type 0 where
  pub id : Uuid
  pub email : Option String
  pub name : Option String
  pub created_at : Time

-- `From<Customer> for CustomerResponse`
unfoldable pub customer_response : Customer → CustomerResponse
customer_response c = record {
  id = c.id;
  email = c.email;
  name = c.name;
  created_at = c.created_at;
}
