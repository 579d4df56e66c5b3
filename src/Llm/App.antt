-- ===== src/Llm/App.antt =====
-- llm/app/main.py: how the adapters and the use case are put together. How the client of the model
-- uses its options is LangChain's.
pub mod Cycle
use profi_notifications.Prelude.{ℕ, Bool, Option, some, List, [], ◌∷◌, Text, codes}
use profi_notifications.Prelude.Json.{Fields, end, field, str, bool, obj}
use profi_notifications.Config.{◌>>=◌, rabbitmq_url}
use profi_notifications.Broker.{Queue, Publisher}
use profi_notifications.Logging.{JsonLogger, json_logger}
use profi_notifications.Llm.Domain.{ContractorProfile}
use profi_notifications.Llm.Profile.{default_profile}
use profi_notifications.Llm.Settings.{Settings}
use profi_notifications.Llm.Assess.{World}
use profi_notifications.Llm.Subscriber.{on_assess_requests}
use profi_notifications.Llm.Wire.{ParseResultMessage}
use profi_notifications.Llm.Topology.{
  build_input_queue, build_dead_letter_queue, build_retry_queue, build_result_queue,
  build_result_publisher, build_retry_publisher,
}

-- The arguments of ChatOpenAI.
pub record ChatOptions : Type 0 where
  pub model : Text
  pub base_url : Text
  pub api_key : Text
  pub temperature : ℕ
  pub max_tokens : ℕ
  pub timeout : ℕ
  pub max_retries : ℕ
  pub extra_body : Fields

pub record App : Type 0 where
  pub logger : JsonLogger
  pub broker_url : Text
  pub prefetch : ℕ
  pub results : Publisher
  pub retries : Publisher
  pub chat : ChatOptions
  pub profile : ContractorProfile
  pub threshold : ℕ
  pub subscribed : Queue
  pub at_startup : List Queue

-- _build_assessor
unfoldable pub build_assessor : Settings → ChatOptions
build_assessor settings = record {
  model = settings.llm.model;
  base_url = settings.llm.base_url;
  api_key = settings.llm.api_key;
  temperature = settings.llm.temperature;
  max_tokens = settings.llm.max_tokens;
  timeout = settings.llm.timeout;
  max_retries = settings.llm.max_retries;
  extra_body = field (codes "service_tier") (str settings.llm.service_tier) (
      field (codes "chat_template_kwargs")
        (obj (field (codes "enable_thinking") (bool settings.llm.enable_thinking) end)) end);
}

-- `none` where the URL cannot be made, since a lone surrogate has no bytes.
unfoldable pub build_app : Settings → Option App
unfolding build_assessor
build_app settings = rabbitmq_url settings.rabbitmq >>= λ broker_url. some (record {
  logger = json_logger (codes "llm") settings.log_level;
  broker_url = broker_url;
  prefetch = settings.messaging.prefetch;
  results = build_result_publisher settings.messaging.result_queue;
  retries = build_retry_publisher settings.messaging.input_queue;
  chat = build_assessor settings;
  profile = default_profile;
  threshold = settings.assessment.suitability_threshold;
  subscribed = build_input_queue settings.messaging.input_queue;
  at_startup =
      build_dead_letter_queue settings.messaging.input_queue
      ∷ build_retry_queue settings.messaging.input_queue settings.messaging.retry_ttl_ms
      ∷ build_result_queue settings.messaging.result_queue
      ∷ [];
})

-- The queues that the service declares, in their order.
unfoldable pub declared_queues : App → List Queue
declared_queues app = app.subscribed ∷ app.at_startup

-- What the subscriber of the app does with a message.
abbrev pub receive : App → ParseResultMessage → World → Bool × World
receive app = on_assess_requests app.profile app.threshold
