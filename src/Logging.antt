-- ===== src/Logging.antt =====
-- infrastructure/observability/logging.py, the same in the three services but for the name of the
-- service. The record is the JSON object that is printed; its time is given.
use profi_notifications.Prelude.{
  arith, ◌≤◌, ◌≡◌, ℕ, ltb, leb, Option, none, some, Text, codes, lower, text_eq, if◌then◌else◌,
}
use profi_notifications.Prelude.Json.{Json, str, Fields, end, field}

pub data Level : Type 0 where
  debug info warning error : Level

pub data Stream : Type 0 where
  stdout stderr : Stream

-- _LEVELS
unfoldable pub severity : Level → ℕ
severity debug = 10
severity info = 20
severity warning = 30
severity error = 40

unfoldable pub level_name : Level → Text
level_name debug = codes "debug"
level_name info = codes "info"
level_name warning = codes "warning"
level_name error = codes "error"

-- _LEVELS.get(name, 20)
unfoldable pub severity_of : Text → ℕ
severity_of name =
    if text_eq name (codes "debug")
    then 10
    else if text_eq name (codes "info")
    then 20
    else if text_eq name (codes "warning")
    then 30
    else if text_eq name (codes "error")
    then 40
    else 20

pub record JsonLogger : Type 0 where
  pub service : Text
  pub threshold : ℕ

unfoldable pub json_logger : Text → Text → JsonLogger
unfolding severity_of
json_logger service level = record { service = service; threshold = severity_of (lower level) }

-- One key of a dict: a key that is there keeps its place and takes the new value.
unfoldable pub put : Text → Json → Fields → Fields
put k v end = field k v end
put k v (field l u rest) =
    let rest' = put k v rest in if text_eq k l then field l v rest else field l u rest'

-- `**fields` behind the keys of a dict
unfoldable pub put_all : Fields → Fields → Fields
unfolding put
put_all end d = d
put_all (field k v rest) d = put_all rest (put k v d)

unfoldable pub log_record : JsonLogger → Level → Text → Text → Fields → Fields
unfolding put_all level_name
log_record logger level event time fields = put_all fields (
    field (codes "level") (str (level_name level)) (
      field (codes "time") (str time)
        (field (codes "service") (str logger.service) (field (codes "event") (str event) end))))

-- JsonLogger._emit: what is printed, and where.
unfoldable pub emit : JsonLogger → Level → Text → Text → Fields → Option (Stream × Fields)
unfolding severity log_record
emit logger level event time fields =
    if ltb (severity level) logger.threshold
    then none
    else some (
      if leb (severity warning) (severity level) then stderr else stdout,
      log_record logger level event time fields,
    )

-- No text sets a threshold above the severity of an error.
pub severity_of-error : (name : Text) → severity_of name ≤ severity error
unfolding severity_of severity
severity_of-error name = ground arith

-- An error is printed to stderr whatever text the settings give for the level.
pub error_emitted :
    (service level event time : Text) (fields : Fields)
    → let logger = json_logger service level in
      emit logger error event time fields ≡ some (stderr, log_record logger error event time fields)
unfolding emit json_logger severity_of severity
error_emitted service level event time fields = ground arith
