-- ===== src/Tests/Settled.antt =====
-- The database at the end of the events of Tests/Story.antt, written out.
use invoice_payment_service.Prelude.{◌≡◌, refl, none, some, [], ◌∷◌, Text.trim, Text.as_bytes}
use invoice_payment_service.Prelude.Int.{pos, ◌*ℤ◌, ◌+ℤ◌}
use invoice_payment_service.Domain.Invoice.{paid, can_transition_to, state_eq, from_parts, as_str}
use invoice_payment_service.Domain.Payment.{PaymentAttempt, PaymentStatus, completed}
use invoice_payment_service.Domain.Webhook.{DeliveryStatus, Payload, payment}
use invoice_payment_service.Table.{order_by, where_, update, insert, sum_by, place, find, exists}
use invoice_payment_service.Db.{Db}
use invoice_payment_service.InvoiceRepo.{
  sum_items, insert_invoice, insert_line_item, sync_total, list_line_items, transition as move_row,
  get as get_row, as_i32,
}
use invoice_payment_service.PaymentService.Pay.{pay}
use invoice_payment_service.Reconciler
use invoice_payment_service.Reconciler.{lease, is_in, due_ids}
use invoice_payment_service.Dispatcher
use invoice_payment_service.Dispatcher.{mark_succeeded as delivered}
use invoice_payment_service.Dispatcher.Batch
use invoice_payment_service.Auth.{require_api_key}
use invoice_payment_service.InvoiceService
use invoice_payment_service.InvoiceService.{validate_line_items, item_errors}
use invoice_payment_service.WebhookEvents.{emit_event}
use invoice_payment_service.PaymentService.Statements.{
  insert_key, insert_attempt, link_attempt, mark_succeeded, mark_unknown, mark_paid, complete_key,
}
use invoice_payment_service.PaymentService.Fingerprint.{fingerprint, fingerprint_input}
use invoice_payment_service.PaymentService.Finalize.{finalize, finalize_for_reconciler}
use invoice_payment_service.PspClient.Client.{client_charge}
use invoice_payment_service.Routes.{pay_route}
use invoice_payment_service.Routes.Handlers.{create_invoice, finalize_invoice, pay_invoice_route}
use invoice_payment_service.Routes.App.{serve}
use invoice_payment_service.Tests.{customer}
use invoice_payment_service.Tests.Basics.{key}
use invoice_payment_service.Tests.Story.{told, endpoint}

-- What the process has left at the end: the invoice is paid, the attempt has succeeded, the key is
-- completed, and both events have been delivered.
abbrev pub settled_attempt : PaymentAttempt
settled_attempt = record {
  id = 301;
  invoice_id = 60;
  business_id = 1;
  idempotency_key = "key-1";
  amount_cents = record { cents = pos 4200 };
  currency = "USD";
  card_token = "tok_success";
  status = PaymentStatus.succeeded;
  psp_ref = some "psp-7";
  failure_code = none;
  last_error = some "psp_timeout";
  attempt_count = 2;
  next_poll_at = some 39000000;
  created_at = 100;
  updated_at = 9000001;
}

abbrev pub settled_db : Db
settled_db = record {
  api_keys = key ∷ [];
  customers = customer ∷ [];
  invoices =
      record {
        id = 60;
        business_id = 1;
        customer_id = 5;
        state = paid;
        currency = "USD";
        total_cents = record { cents = pos 4200 };
        finalized_at = some 100;
        paid_at = some 9000001;
        voided_at = none;
        version = 2;
        created_at = 99;
        updated_at = 9000001;
      }
      ∷ [];
  line_items =
      record {
        id = 61;
        invoice_id = 60;
        description = "Consulting";
        quantity = pos 2;
        unit_amount_cents = record { cents = pos 1500 };
        amount_cents = record { cents = pos 3000 };
        position = pos 0;
      }
      ∷ record {
        id = 62;
        invoice_id = 60;
        description = "Hosting";
        quantity = pos 1;
        unit_amount_cents = record { cents = pos 1200 };
        amount_cents = record { cents = pos 1200 };
        position = pos 1;
      }
      ∷ [];
  attempts = settled_attempt ∷ [];
  idempotency_keys =
      record {
        id = 300;
        business_id = 1;
        idempotency_key = "key-1";
        request_fingerprint =
            60 ∷ 0 ∷ 116 ∷ 111 ∷ 107 ∷ 95 ∷ 115 ∷ 117 ∷ 99 ∷ 99 ∷ 101 ∷ 115 ∷ 115 ∷ 0 ∷ 104 ∷ 16 ∷ 0
            ∷ 0 ∷ 0 ∷ 0 ∷ 0 ∷ 0 ∷ [];
        status = completed;
        attempt_id = some 301;
        response_status = some 200;
        response_body = some (record {
          attempt_id = 301;
          invoice_id = 60;
          status = PaymentStatus.succeeded;
          amount_cents = pos 4200;
          invoice_state = "paid";
          psp_ref = some "psp-7";
          failure_code = none;
          message = none;
          poll_url = none;
        });
        created_at = 100;
        expires_at = 86400000100;
      }
      ∷ [];
  endpoints = endpoint ∷ [];
  events =
      record {
        id = 70;
        business_id = 1;
        event_type = "invoice.created";
        aggregate_id = 60;
        payload = Payload.created 60 5 "draft" (pos 4200) "USD";
        sequence = 1;
        created_at = 99;
      }
      ∷ record {
        id = 1301;
        business_id = 1;
        event_type = "invoice.paid";
        aggregate_id = 60;
        payload = payment 60 301 PaymentStatus.succeeded (pos 4200) none;
        sequence = 2;
        created_at = 9000001;
      }
      ∷ [];
  deliveries =
      record {
        id = 150;
        event_id = 70;
        endpoint_id = 80;
        business_id = 1;
        status = DeliveryStatus.succeeded;
        attempts = 1;
        next_attempt_at = 9500000;
        locked_until = none;
        last_status_code = some 204;
        last_error = none;
        last_attempt_at = some 9500000;
        created_at = 9500000;
      }
      ∷ record {
        id = 1381;
        event_id = 1301;
        endpoint_id = 80;
        business_id = 1;
        status = DeliveryStatus.succeeded;
        attempts = 1;
        next_attempt_at = 9500000;
        locked_until = none;
        last_status_code = some 204;
        last_error = none;
        last_attempt_at = some 9500000;
        created_at = 9500000;
      }
      ∷ [];
  next_sequence = 3;
}

pub told_settled : told.world.db ≡ settled_db
unfolding told Batch.tick Dispatcher.lease order_by where_ Reconciler.tick update serve
    require_api_key find create_invoice InvoiceService.create validate_line_items exists
    insert_invoice insert_line_item ◌*ℤ◌ ◌+ℤ◌ insert sync_total sum_items sum_by list_line_items
    emit_event finalize_invoice InvoiceService.finalize move_row get_row can_transition_to state_eq
    pay_invoice_route pay_route pay insert_key insert_attempt link_attempt fingerprint client_charge
    mark_succeeded mark_unknown mark_paid complete_key finalize finalize_for_reconciler is_in
    due_ids delivered as_bytes as_i32 place item_errors from_parts as_str trim fingerprint_input
told_settled = refl
