-- ===== src/Llm/Settings.antt =====
-- llm/app/infrastructure/config/settings.py.
-- A variable that holds a whole group as JSON is not modelled.
use profi_notifications.Prelude.{
  ℕ, Bool, false, Option, none, some, Text, codes, is_empty, if◌then◌else◌,
}
use profi_notifications.Config.{
  Env, Readers, ◌>>=◌, text_field, number_field, positive, not_negative, percent, flag_field,
  float_field, to_two, positive_float, RabbitMqSettings, load_rabbitmq,
}

pub record LlmSettings : Type 0 where
  pub api_key : Text
  pub model : Text
  pub base_url : Text
  pub temperature : ℕ
  pub max_tokens : ℕ
  pub timeout : ℕ
  pub max_retries : ℕ
  pub service_tier : Text
  pub enable_thinking : Bool

pub record MessagingSettings : Type 0 where
  pub input_queue : Text
  pub result_queue : Text
  pub prefetch : ℕ
  pub retry_ttl_ms : ℕ

pub record AssessmentSettings : Type 0 where
  pub suitability_threshold : ℕ

pub record Settings : Type 0 where
  pub rabbitmq : RabbitMqSettings
  pub llm : LlmSettings
  pub messaging : MessagingSettings
  pub assessment : AssessmentSettings
  pub log_level : Text

-- Field(min_length=1, validate_default=True): the default is checked, too.
unfoldable pub not_empty : Text → Option Text
not_empty t = if is_empty t then none else some t

module _ (readers : Readers) (env : Env) where
  -- The defaults 0.0 and 60.0 are given by their patterns.
  unfoldable pub load_llm : Option LlmSettings
  load_llm = not_empty (text_field env (codes "LLM__API_KEY") (codes "")) >>= λ api_key.
      float_field readers to_two env (codes "LLM__TEMPERATURE") 0 >>= λ temperature.
      number_field readers.int positive env (codes "LLM__MAX_TOKENS") 2048 >>= λ max_tokens.
      float_field readers positive_float env (codes "LLM__TIMEOUT") 4633641066610819072
      >>= λ timeout.
          number_field readers.int not_negative env (codes "LLM__MAX_RETRIES") 3 >>= λ max_retries.
          flag_field readers env (codes "LLM__ENABLE_THINKING") false >>= λ enable_thinking.
          some (record {
            api_key = api_key;
            model = text_field env (codes "LLM__MODEL") (codes "Qwen/Qwen3-32B");
            base_url =
                text_field env (codes "LLM__BASE_URL")
                  (codes "https://api.deepinfra.com/v1/openai");
            temperature = temperature;
            max_tokens = max_tokens;
            timeout = timeout;
            max_retries = max_retries;
            service_tier = text_field env (codes "LLM__SERVICE_TIER") (codes "flex");
            enable_thinking = enable_thinking;
          })

  unfoldable pub load_messaging : Option MessagingSettings
  load_messaging =
      number_field readers.int positive env (codes "MESSAGING__PREFETCH") 1 >>= λ prefetch.
      number_field readers.int positive env (codes "MESSAGING__RETRY_TTL_MS") 15000
      >>= λ retry_ttl_ms. some (record {
        input_queue = text_field env (codes "MESSAGING__INPUT_QUEUE") (codes "assess.requests");
        result_queue = text_field env (codes "MESSAGING__RESULT_QUEUE") (codes "assess.results");
        prefetch = prefetch;
        retry_ttl_ms = retry_ttl_ms;
      })

  unfoldable pub load_assessment : Option AssessmentSettings
  load_assessment =
      number_field readers.int percent env (codes "ASSESSMENT__SUITABILITY_THRESHOLD") 60
      >>= λ threshold. some (record { suitability_threshold = threshold })

  -- Settings(): `none` is a ValidationError, which keeps the service from starting.
  unfoldable pub load_settings : Option Settings
  unfolding load_llm load_messaging load_assessment
  load_settings = load_rabbitmq readers env >>= λ rabbitmq. load_llm >>= λ llm.
      load_messaging >>= λ messaging. load_assessment >>= λ assessment. some (record {
        rabbitmq = rabbitmq;
        llm = llm;
        messaging = messaging;
        assessment = assessment;
        log_level = text_field env (codes "LOG_LEVEL") (codes "info");
      })
