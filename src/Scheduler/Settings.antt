-- ===== src/Scheduler/Settings.antt =====
-- scheduler/app/infrastructure/config/settings.py.
-- A variable that holds a whole group as JSON is not modelled.
use profi_notifications.Prelude.{ℕ, Option, some, Text, codes}
use profi_notifications.Config.{
  Env, Readers, ◌>>=◌, text_field, number_field, positive, RabbitMqSettings, load_rabbitmq,
}

pub record SchedulerSettings : Type 0 where
  pub parse_interval_seconds : ℕ
  pub parse_queue : Text
  pub parse_max_pages : ℕ
  pub parse_search_query : Text

pub record Settings : Type 0 where
  pub rabbitmq : RabbitMqSettings
  pub scheduler : SchedulerSettings
  pub log_level : Text

module _ (readers : Readers) (env : Env) where
  unfoldable pub load_scheduler : Option SchedulerSettings
  load_scheduler =
      number_field readers.int positive env (codes "SCHEDULER__PARSE_INTERVAL_SECONDS") 300
      >>= λ interval.
          number_field readers.int positive env (codes "SCHEDULER__PARSE_MAX_PAGES") 1
          >>= λ max_pages. some (record {
            parse_interval_seconds = interval;
            parse_queue = text_field env (codes "SCHEDULER__PARSE_QUEUE") (codes "parse.requests");
            parse_max_pages = max_pages;
            parse_search_query = text_field env (codes "SCHEDULER__PARSE_SEARCH_QUERY") (codes "");
          })

  -- Settings(): `none` is a ValidationError, which keeps the service from starting.
  unfoldable pub load_settings : Option Settings
  unfolding load_scheduler
  load_settings = load_rabbitmq readers env >>= λ rabbitmq. load_scheduler >>= λ scheduler.
      some (record {
        rabbitmq = rabbitmq;
        scheduler = scheduler;
        log_level = text_field env (codes "LOG_LEVEL") (codes "info");
      })
