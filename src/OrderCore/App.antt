-- ===== src/OrderCore/App.antt =====
-- order-core-service/app/main.py with infrastructure/db/engine.py: how the adapters and the use cases
-- are put together, the answer of `/ready`, and what runs at start-up and at shut-down.
pub mod Drains
use profi_notifications.Prelude.{
  ℕ, Bool, true, false, ◌&&◌, Option, some, List, [], ◌∷◌, ◌++◌, Text, codes, if◌then◌else◌,
}
use profi_notifications.Prelude.Json.{Fields}
use profi_notifications.Config.{◌>>=◌, rabbitmq_url}
use profi_notifications.Broker.{Queue, Publisher}
use profi_notifications.Logging.{JsonLogger, json_logger}
use profi_notifications.OrderCore.Dto.{Result, ok, err}
use profi_notifications.OrderCore.Guard.{Parsed}
use profi_notifications.OrderCore.Wire.{AssessmentResultMessage, ParseResultMessage}
use profi_notifications.OrderCore.System.{Wiring}
use profi_notifications.OrderCore.Settings.{Settings, url_of_postgres}
use profi_notifications.OrderCore.Topology.{
  build_parse_queue, build_assess_result_queue, build_dead_letter_queue,
  build_assess_request_publisher, build_notify_publisher, build_dlq_publisher,
}

pub record App : Type 0 where
  pub logger : JsonLogger
  pub database_url : Text
  pub broker_url : Text
  pub prefetch : ℕ
  pub dead_letters : Publisher
  pub subscribed : List Queue
  pub wiring : Wiring
  pub assess_request : Publisher
  pub notify : Publisher
  pub interval_ms : ℕ
  pub at_startup : List Queue

module _ (parse_batch : Fields → Parsed ParseResultMessage)
    (parse_verdict : Fields → Parsed AssessmentResultMessage) where
  unfoldable pub wiring_of : Settings → Wiring
  wiring_of settings = record {
    parse_batch = parse_batch;
    parse_verdict = parse_verdict;
    parse_queue = settings.messaging.parse_queue;
    assess_result_queue = settings.messaging.assess_result_queue;
    notify_threshold = settings.assessment.notify_threshold;
    batch_size = settings.outbox.batch_size;
  }

  -- `none` where a URL cannot be made, since a lone surrogate has no bytes.
  unfoldable pub build_app : Settings → Option App
  unfolding wiring_of
  build_app settings = url_of_postgres settings.postgres >>= λ database_url.
      rabbitmq_url settings.rabbitmq >>= λ broker_url. some (record {
        logger = json_logger (codes "order-core") settings.log_level;
        database_url = database_url;
        broker_url = broker_url;
        prefetch = settings.messaging.prefetch;
        dead_letters = build_dlq_publisher settings.messaging.dlq;
        subscribed =
            build_parse_queue settings.messaging.parse_queue settings.messaging.dlq
            ∷ build_assess_result_queue settings.messaging.assess_result_queue
            ∷ [];
        wiring = wiring_of settings;
        assess_request = build_assess_request_publisher settings.messaging.assess_request_queue;
        notify =
            build_notify_publisher settings.messaging.notify_exchange
              settings.messaging.notify_routing_key;
        interval_ms = settings.outbox.poll_interval_ms;
        at_startup = build_dead_letter_queue settings.messaging.dlq ∷ [];
      })

-- The queues that the service declares, in their order.
unfoldable pub declared_queues : App → List Queue
declared_queues app = app.subscribed ++ app.at_startup

-- _database_ready, on what `SELECT 1` does
unfoldable pub database_ready : Result Unit → Bool
database_ready (ok u) = true
database_ready (err e) = false

-- _readiness: the text and the status of `/ready`
unfoldable pub readiness : Bool → Result Unit → Text × ℕ
unfolding database_ready
readiness ping select =
    let ready = ping && database_ready select in
    (if ready then codes "ready" else codes "not ready", if ready then 200 else 503)

-- What runs besides the subscribers: whether OutboxRelay has its task, and whether the engine is
-- disposed of.
pub record Background : Type 0 where
  pub relay_task : Bool
  pub disposed : Bool

-- OutboxRelay.start
unfoldable pub start : Background → Background
start b = record b { relay_task = true }

-- OutboxRelay.stop: without a task there is nothing to cancel.
unfoldable pub stop : Background → Background
stop b = if b.relay_task then record b { relay_task = false } else b

-- _startup, on what the declaration of the dead-letter queue does
unfoldable pub startup : Result Unit → Background → Result Unit × Background
unfolding start
startup (ok u) b = (ok tt, start b)
startup (err e) b = (err e, b)

-- _shutdown
unfoldable pub shutdown : Background → Background
unfolding stop
shutdown b = record (stop b) { disposed = true }
