-- ===== src/OrderCore/Db/Repositories.antt =====
-- order-core-service/app/infrastructure/db/repositories.py: the methods, each one statement.
use profi_notifications.Prelude.{ℕ, Bool, Option, Text}
use profi_notifications.Prelude.Json.{Fields}
use profi_notifications.OrderCore.Domain.{
  Source, source_value, OrderStatus, NotificationCommand, Order,
}
use profi_notifications.OrderCore.Dto.{IncomingOrder}
use profi_notifications.OrderCore.Wire.{assess_request_payload, notification_payload}
use profi_notifications.OrderCore.Effects.{Tx, statement}
use profi_notifications.OrderCore.Db.{
  OutboxDestination, assess_request, notify, Db, find_order, insert_order, insert_event,
  update_status, read_order, event_key, assess_kind, notify_kind,
}

-- `now` is the time at which the transaction began, PostgreSQL's `now()`.
module _ (now : ℕ) where
  unfoldable pub insert_new : IncomingOrder → Tx Db Bool
  insert_new order = statement (insert_order now order)

  unfoldable pub get : Source → Text → Tx Db (Option Order)
  get source external_id =
      statement (λ db. (read_order (find_order (source_value source) external_id db.orders), db))

  unfoldable pub set_status : Source → Text → OrderStatus → Option ℕ → Tx Db Bool
  set_status source external_id status score =
      statement (update_status now (source_value source) external_id status score)

  unfoldable pub add : OutboxDestination → Text → Fields → Tx Db Unit
  add destination key payload = statement (insert_event now destination key payload)

  unfoldable pub add_assessment_request : IncomingOrder → Tx Db Unit
  unfolding add
  add_assessment_request order =
      add assess_request (event_key assess_kind order.source order.external_id)
        (assess_request_payload order)

  unfoldable pub add_notification : Source → Text → NotificationCommand → Tx Db Unit
  unfolding add
  add_notification source external_id notification =
      add notify (event_key notify_kind source external_id) (notification_payload notification)
