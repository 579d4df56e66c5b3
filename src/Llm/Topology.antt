-- ===== src/Llm/Topology.antt =====
-- llm/app/infrastructure/messaging/broker.py.
use profi_notifications.Prelude.{ℕ, true, [], ◌∷◌, ◌++◌, Text, codes}
use profi_notifications.Broker.{Queue, text, number, durable_queue, Publisher, queue_publisher}

abbrev pub dlq_name : Text → Text
dlq_name name = name ++ codes ".dlq"

abbrev pub retry_name : Text → Text
retry_name name = name ++ codes ".retry"

unfoldable pub build_input_queue : Text → Queue
build_input_queue name = record {
  name = name;
  durable = true;
  arguments =
      (codes "x-dead-letter-exchange", text (codes ""))
      ∷ (codes "x-dead-letter-routing-key", text (dlq_name name))
      ∷ [];
}

unfoldable pub build_dead_letter_queue : Text → Queue
build_dead_letter_queue input_queue = durable_queue (dlq_name input_queue)

unfoldable pub build_retry_queue : Text → ℕ → Queue
build_retry_queue input_queue ttl_ms = record {
  name = retry_name input_queue;
  durable = true;
  arguments =
      (codes "x-message-ttl", number ttl_ms)
      ∷ (codes "x-dead-letter-exchange", text (codes ""))
      ∷ (codes "x-dead-letter-routing-key", text input_queue)
      ∷ [];
}

unfoldable pub build_result_queue : Text → Queue
build_result_queue name = durable_queue name

unfoldable pub build_result_publisher : Text → Publisher
build_result_publisher queue = queue_publisher queue

unfoldable pub build_retry_publisher : Text → Publisher
build_retry_publisher input_queue = queue_publisher (retry_name input_queue)
