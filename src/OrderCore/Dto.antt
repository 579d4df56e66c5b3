-- ===== src/OrderCore/Dto.antt =====
-- order-core-service/app/application/dto.py and errors.py.
use profi_notifications.Prelude.{ℕ, Text, Option}
use profi_notifications.Prelude.Json.{ℤ, Fields}
use profi_notifications.OrderCore.Domain.{Source}

pub record IncomingOrder : Type 0 where
  pub source : Source
  pub external_id : Text
  pub payload : Fields
  pub request_id : Option Text
  pub fetched_at : ℤ

-- A row of the outbox that waits to be published. A `uuid.UUID` is a number here.
pub record PendingEvent : Type 0 where
  pub id : ℕ
  pub destination : Text
  pub payload : Fields

-- What a handler may raise: the application's own errors, and those of the libraries it calls.
pub data Exc : Type 0 where
  transient permanent : Text → Exc
  validation : Exc
  value_error : Exc
  runtime_error : Exc
  database_error : Exc
  broker_error : Exc

pub data Result (A : Type 0) : Type 0 where
  ok : A → Result A
  err : Exc → Result A
