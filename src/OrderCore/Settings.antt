-- ===== src/OrderCore/Settings.antt =====
-- order-core-service/app/infrastructure/config/settings.py.
-- A variable that holds a whole group as JSON is not modelled.
pub mod Bounds
use profi_notifications.Prelude.Json.{pos, ℤ}
use profi_notifications.Prelude.{codes, some, Option, Text, ℕ}
use profi_notifications.Config.{
  Env, Readers, ◌>>=◌, text_field, number_field, positive, percent, any_int, RabbitMqSettings,
  load_rabbitmq, postgres_url,
}

pub record PostgresSettings : Type 0 where
  pub host : Text
  pub port : ℤ
  pub username : Text
  pub password : Text
  pub db : Text

pub record MessagingSettings : Type 0 where
  pub parse_queue : Text
  pub assess_result_queue : Text
  pub assess_request_queue : Text
  pub notify_exchange : Text
  pub notify_routing_key : Text
  pub dlx : Text
  pub dlq : Text
  pub retry_exchange : Text
  pub retry_queue : Text
  pub prefetch : ℕ
  pub retry_delay_ms : ℕ
  pub max_attempts : ℕ

pub record AssessmentSettings : Type 0 where
  pub notify_threshold : ℕ

pub record OutboxSettings : Type 0 where
  pub poll_interval_ms : ℕ
  pub batch_size : ℕ
  pub max_attempts : ℕ

pub record Settings : Type 0 where
  pub rabbitmq : RabbitMqSettings
  pub postgres : PostgresSettings
  pub messaging : MessagingSettings
  pub assessment : AssessmentSettings
  pub outbox : OutboxSettings
  pub log_level : Text

module _ (readers : Readers) (env : Env) where
  -- A number that must be positive.
  abbrev positive_of : Text → ℕ → Option ℕ
  positive_of = number_field readers.int positive env

  unfoldable pub load_postgres : Option PostgresSettings
  load_postgres =
      number_field readers.int any_int env (codes "POSTGRES__PORT") (pos 5432) >>= λ port.
      some (record {
        host = text_field env (codes "POSTGRES__HOST") (codes "localhost");
        port = port;
        username = text_field env (codes "POSTGRES__USERNAME") (codes "postgres");
        password = text_field env (codes "POSTGRES__PASSWORD") (codes "postgres");
        db = text_field env (codes "POSTGRES__DB") (codes "order_core");
      })

  unfoldable pub load_messaging : Option MessagingSettings
  load_messaging = positive_of (codes "MESSAGING__PREFETCH") 10 >>= λ prefetch.
      positive_of (codes "MESSAGING__RETRY_DELAY_MS") 30000 >>= λ retry_delay_ms.
      positive_of (codes "MESSAGING__MAX_ATTEMPTS") 5 >>= λ max_attempts. some (record {
        parse_queue = text_field env (codes "MESSAGING__PARSE_QUEUE") (codes "parse.results");
        assess_result_queue =
            text_field env (codes "MESSAGING__ASSESS_RESULT_QUEUE") (codes "assess.results");
        assess_request_queue =
            text_field env (codes "MESSAGING__ASSESS_REQUEST_QUEUE") (codes "assess.requests");
        notify_exchange =
            text_field env (codes "MESSAGING__NOTIFY_EXCHANGE") (codes "notifications");
        notify_routing_key =
            text_field env (codes "MESSAGING__NOTIFY_ROUTING_KEY") (codes "notify");
        dlx = text_field env (codes "MESSAGING__DLX") (codes "order.dlx");
        dlq = text_field env (codes "MESSAGING__DLQ") (codes "order.dlq");
        retry_exchange = text_field env (codes "MESSAGING__RETRY_EXCHANGE") (codes "order.retry");
        retry_queue = text_field env (codes "MESSAGING__RETRY_QUEUE") (codes "order.retry");
        prefetch = prefetch;
        retry_delay_ms = retry_delay_ms;
        max_attempts = max_attempts;
      })

  unfoldable pub load_assessment : Option AssessmentSettings
  load_assessment =
      number_field readers.int percent env (codes "ASSESSMENT__NOTIFY_THRESHOLD") 0 >>= λ threshold.
      some (record { notify_threshold = threshold })

  unfoldable pub load_outbox : Option OutboxSettings
  load_outbox = positive_of (codes "OUTBOX__POLL_INTERVAL_MS") 1000 >>= λ poll_interval_ms.
      positive_of (codes "OUTBOX__BATCH_SIZE") 100 >>= λ batch_size.
      positive_of (codes "OUTBOX__MAX_ATTEMPTS") 10 >>= λ max_attempts. some (record {
        poll_interval_ms = poll_interval_ms;
        batch_size = batch_size;
        max_attempts = max_attempts;
      })

  -- Settings(): `none` is a ValidationError, which keeps the service from starting.
  unfoldable pub load_settings : Option Settings
  unfolding load_postgres load_messaging load_assessment load_outbox
  load_settings = load_rabbitmq readers env >>= λ rabbitmq. load_postgres >>= λ postgres.
      load_messaging >>= λ messaging. load_assessment >>= λ assessment. load_outbox >>= λ outbox.
      some (record {
        rabbitmq = rabbitmq;
        postgres = postgres;
        messaging = messaging;
        assessment = assessment;
        outbox = outbox;
        log_level = text_field env (codes "LOG_LEVEL") (codes "info");
      })

-- PostgresSettings.url
unfoldable pub url_of_postgres : PostgresSettings → Option Text
url_of_postgres s = postgres_url s.host s.port s.username s.password s.db
