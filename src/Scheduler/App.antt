-- ===== src/Scheduler/App.antt =====
-- scheduler/app/main.py with infrastructure/messaging/broker.py and scheduling.py: how the use case
-- is put together, and the routes. When the schedule ticks is taskiq's.
use profi_notifications.Prelude.{
  none, true, ◌++◌, false, Bool, ℕ, Option, some, List, [], ◌∷◌, Text, codes,
}
use profi_notifications.Prelude.Json.{Fields}
use profi_notifications.Config.{◌>>=◌, rabbitmq_url}
use profi_notifications.Broker.{Queue, durable_queue}
use profi_notifications.Logging.{JsonLogger, json_logger}
use profi_notifications.Scheduler.{Scheduler, Metrics, next_parse_request, render}
use profi_notifications.Scheduler.Settings.{Settings}

unfoldable pub parse_requests_queue : Text → Queue
parse_requests_queue name = durable_queue name

-- build_scheduler: the task of the schedule, without its message.
pub record Task : Type 0 where
  pub queue : Text
  pub interval_seconds : ℕ
  pub schedule_id : Text

unfoldable pub build_scheduler : Text → ℕ → Task
build_scheduler queue interval_seconds = record {
  queue = queue;
  interval_seconds = interval_seconds;
  schedule_id = codes "parse-orders";
}

pub record App : Type 0 where
  pub logger : JsonLogger
  pub broker_url : Text
  pub search_query : Text
  pub max_pages : ℕ
  pub task : Task
  pub at_startup : List Queue

-- `none` where the URL cannot be made, since a lone surrogate has no bytes.
unfoldable pub build_app : Settings → Option App
build_app settings = rabbitmq_url settings.rabbitmq >>= λ broker_url. some (record {
  logger = json_logger (codes "scheduler") settings.log_level;
  broker_url = broker_url;
  search_query = settings.scheduler.parse_search_query;
  max_pages = settings.scheduler.parse_max_pages;
  task = build_scheduler settings.scheduler.parse_queue settings.scheduler.parse_interval_seconds;
  at_startup = parse_requests_queue settings.scheduler.parse_queue ∷ [];
})

-- PrometheusMetrics and the log before the first tick.
abbrev pub fresh_scheduler : Scheduler
fresh_scheduler = record { metrics = record { published = 0; last_ts = 0 }; log = []; drawn = 0 }

-- What the task of the app is called with.
unfoldable pub task_message : (ℕ → Text) → App → ℕ → Scheduler → Fields × Scheduler
unfolding next_parse_request
task_message new_id app now s = next_parse_request new_id app.search_query app.max_pages now s

-- The bodies and statuses of `/health` and `/metrics`.
unfoldable pub health : Text × ℕ
health = (codes "ok", 200)

unfoldable pub metrics_response : (ℕ → Text) → Metrics → Text × ℕ × Text
metrics_response show_time m =
    (render show_time m, 200, codes "text/plain; version=0.0.4; charset=utf-8")

-- Whether `tasks` has the task of the schedule, whether this runs, and the intervals that the log
-- names as started.
pub record Running : Type 0 where
  pub task : Option Bool
  pub started : List ℕ

-- _startup, on whether the declaration of the queue succeeds
unfoldable pub startup : App → Bool → Running → Bool × Running
startup app true r =
    (true, record { task = some true; started = r.started ++ app.task.interval_seconds ∷ [] })
startup app false r = (false, r)

abbrev cancelled : Option Bool → Option Bool
cancelled none = none
cancelled (some running) = some false

-- _shutdown: the task is cancelled, if there is one; it stays in `tasks`.
unfoldable pub shutdown : Running → Running
shutdown r = record r { task = cancelled r.task }
