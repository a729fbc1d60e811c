-- ===== src/Db.antt =====
-- The database of the service: one field for each table of migrations/, statements that may be
-- refused with a `sqlx::Error`, and transactions. A statement is one atomic step. Foreign keys need
-- no test: the code inserts only references to rows that it has read, and deletes no row.
use invoice_payment_service.Prelude.{ℕ, String, Bool, Option, none, some, List, if◌then◌else◌}
use invoice_payment_service.Errors.{AppError, SqlxError, database, from_sqlx, Result, ok, err}
use invoice_payment_service.Domain.Invoice.{Invoice, LineItem}
use invoice_payment_service.Domain.Payment.{PaymentAttempt, IdempotencyKey}
use invoice_payment_service.Domain.Webhook.{WebhookEvent, WebhookEndpoint, WebhookDelivery}
use invoice_payment_service.Domain.Customer.{Customer}
use invoice_payment_service.Domain.ApiKey.{ApiKey}

pub record Db : Type 0 where
  pub api_keys : List ApiKey
  pub customers : List Customer
  pub invoices : List Invoice
  pub line_items : List LineItem
  pub attempts : List PaymentAttempt
  pub idempotency_keys : List IdempotencyKey
  pub endpoints : List WebhookEndpoint
  pub events : List WebhookEvent
  pub deliveries : List WebhookDelivery
  pub next_sequence : ℕ

-- A statement, or several in a row, with the database that they leave.
abbrev pub Statement : Type 0 → Type 0
Statement A = Db → Result A SqlxError × Db

-- A piece of a handler.
abbrev pub Action : Type 0 → Type 0
Action A = Db → Result A AppError × Db

module _ {A : Type 0} where
  abbrev pub pure : A → Action A
  pure a db = (ok a, db)

  abbrev fail : AppError → Action A
  fail e db = (err e, db)

  -- `statement.await?`
  abbrev pub query : Statement A → Action A
  query s db =
      let (r, db') = s db in elim r [ ok a ↦ (ok a, db') | err e ↦ (err (from_sqlx e), db') ]

  -- `.ok_or(e)?`
  abbrev pub ok_or : Option A → AppError → Action A
  ok_or none e = fail e
  ok_or (some a) e = pure a

  -- `pool.begin()` … `tx.commit()`: what fails on the way is rolled back.
  abbrev pub transaction : Action A → Action A
  transaction body db =
      let (r, db') = body db in elim r [ ok a ↦ (ok a, db') | err e ↦ (err e, db) ]

infixl 5 ◌>>=◌ ◌>>◌
abbrev pub ◌>>=◌ : {A B : Type 0} → Action A → (A → Action B) → Action B
◌>>=◌ m f db = let (r, db') = m db in elim r [ ok a ↦ f a db' | err e ↦ (err e, db') ]

abbrev pub ◌>>◌ : {A B : Type 0} → Action A → Action B → Action B
m >> k = m >>= λ _. k

-- `statement.await?` of an UPDATE that cannot be refused and whose count of rows is not looked at.
abbrev pub execute : (Db → Db) → Action Unit
execute f db = (ok tt, f db)

-- `if b { return Err(e) }`
abbrev pub fail_if : Bool → AppError → Action Unit
fail_if b e db = (if b then err e else ok tt, db)

-- A unique violation, SQLSTATE 23505, of the named index.
abbrev pub unique_violation : String → SqlxError
unique_violation index = database "23505" (some index)

-- The SQLSTATEs of a number out of range and of a failed CHECK.
abbrev pub out_of_range : SqlxError
out_of_range = database "22003" none

abbrev pub check_violation : String → SqlxError
check_violation constraint = database "23514" (some constraint)
