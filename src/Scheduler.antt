-- ===== src/Scheduler.antt =====
-- scheduler, the service that asks the parser for the orders (scheduler/app): the command, its
-- mapping to the wire, the use case that builds it and the metrics.
pub mod Settings
pub mod App
use profi_notifications.Prelude.{
  ℕ, ◌+◌, Bool, true, Option, none, some, List, [], ◌∷◌, ◌++◌, Text, codes, join, decimal,
}
use profi_notifications.Prelude.Json.{Json, bool, int, str, obj, Fields, end, field, given, ℤ, pos}

pub data SortOrder : Type 0 where
  default date : SortOrder

unfoldable pub sort_value : SortOrder → Text
sort_value default = codes "DEFAULT"
sort_value date = codes "DATE"

pub record BoardFilter : Type 0 where
  pub search_query : Text
  pub page_size : ℕ
  pub sort : SortOrder
  pub all_verticals : Bool
  pub use_saved_filter : Bool

pub record ParseCommand : Type 0 where
  pub request_id : Text
  pub filter : BoardFilter
  pub max_pages : Option ℕ

-- to_parse_request: the dump leaves out `max_pages` if it is `None`.
unfoldable pub to_parse_request : ParseCommand → Fields
unfolding sort_value
to_parse_request command = field (codes "request_id") (str command.request_id) (
    field (codes "filter")
      (obj (
        field (codes "search_query") (str command.filter.search_query) (
          field (codes "page_size") (int (pos command.filter.page_size)) (
            field (codes "sort") (str (sort_value command.filter.sort)) (
              field (codes "all_verticals") (bool command.filter.all_verticals)
                (field (codes "use_saved_filter") (bool command.filter.use_saved_filter) end))))))
      (given (codes "max_pages") (λ n. int (pos n)) command.max_pages end))

-- PrometheusMetrics; a time is a number, 0 before the first command.
pub record Metrics : Type 0 where
  pub published : ℕ
  pub last_ts : ℕ

unfoldable pub command_published : ℕ → Metrics → Metrics
command_published now m = record { published = m.published + 1; last_ts = now }

-- The text of `/metrics`; how Python prints a float is given.
unfoldable pub render : (ℕ → Text) → Metrics → Text
render show_time m =
    join (10 ∷ []) (
      codes "# HELP scheduler_commands_published_total Всего опубликовано команд парсинга."
      ∷ codes "# TYPE scheduler_commands_published_total counter"
      ∷ (codes "scheduler_commands_published_total " ++ decimal m.published)
      ∷ codes "# HELP scheduler_last_command_timestamp_seconds Unix-время последней команды."
      ∷ codes "# TYPE scheduler_last_command_timestamp_seconds gauge"
      ∷ (codes "scheduler_last_command_timestamp_seconds " ++ show_time m.last_ts)
      ∷ [])
    ++ 10 ∷ []

pub data LogLine : Type 0 where
  parse_command_scheduled : Text → Option ℕ → LogLine

-- The use case with what it is wired to: the metrics, the log, and how many ids were drawn.
pub record Scheduler : Type 0 where
  pub metrics : Metrics
  pub log : List LogLine
  pub drawn : ℕ

module _ (new_id : ℕ → Text) (search_query : Text) (max_pages : ℕ) where
  abbrev command_with : Text → ParseCommand
  command_with id = record {
    request_id = id;
    filter = record {
      search_query = search_query;
      page_size = 10;
      sort = default;
      all_verticals = true;
      use_saved_filter = true;
    };
    max_pages = some max_pages;
  }

  -- BuildParseCommand.build, at the time `now`
  unfoldable pub build : ℕ → Scheduler → ParseCommand × Scheduler
  unfolding command_published
  build now s =
      let command = command_with (new_id s.drawn) in
      (
        command,
        record {
          metrics = command_published now s.metrics;
          log = s.log ++ parse_command_scheduled command.request_id command.max_pages ∷ [];
          drawn = s.drawn + 1;
        },
      )

  -- _next_parse_request of main.py, which taskiq calls at each tick: the message that it is to
  -- publish. The counter of the metrics has grown by then.
  unfoldable pub next_parse_request : ℕ → Scheduler → Fields × Scheduler
  unfolding build to_parse_request
  next_parse_request now s = let (command, s') = build now s in (to_parse_request command, s')
