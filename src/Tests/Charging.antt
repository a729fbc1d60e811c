-- ===== src/Tests/Charging.antt =====
-- The decision of a payment request, at the open invoice of the examples.
use invoice_payment_service.PaymentService.Pay.{nobody}
use invoice_payment_service.PaymentService.Decision.{pay_decides, IsDecided}
use invoice_payment_service.Tests.{crates, fresh_db, world_of, ids_from, accepting, request}

pay_decides_example :
    IsDecided crates accepting (ids_from 40) nobody 1 10 "key-1" request (world_of fresh_db)
pay_decides_example =
    pay_decides crates accepting (ids_from 40) nobody 1 10 "key-1" request (world_of fresh_db)
