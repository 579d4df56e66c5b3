-- ===== src/OrderCore/Topology.antt =====
-- order-core-service/app/infrastructure/messaging/broker.py.
use profi_notifications.Prelude.{true, false, some, [], ◌∷◌, Text, codes}
use profi_notifications.Broker.{Queue, text, durable_queue, Exchange, Publisher, queue_publisher}

unfoldable pub notifications_exchange : Text → Exchange
notifications_exchange name = record { name = name; durable = true }

unfoldable pub build_parse_queue : Text → Text → Queue
build_parse_queue name dlq = record {
  name = name;
  durable = true;
  arguments =
      (codes "x-dead-letter-exchange", text (codes ""))
      ∷ (codes "x-dead-letter-routing-key", text dlq)
      ∷ [];
}

unfoldable pub build_assess_result_queue : Text → Queue
build_assess_result_queue name = durable_queue name

unfoldable pub build_dead_letter_queue : Text → Queue
build_dead_letter_queue name = durable_queue name

unfoldable pub build_assess_request_publisher : Text → Publisher
build_assess_request_publisher queue = queue_publisher queue

-- not persistent, which is the default
unfoldable pub build_notify_publisher : Text → Text → Publisher
unfolding notifications_exchange
build_notify_publisher exchange routing_key = record {
  exchange = some (notifications_exchange exchange);
  routing_key = routing_key;
  persist = false;
}

unfoldable pub build_dlq_publisher : Text → Publisher
build_dlq_publisher queue = queue_publisher queue
