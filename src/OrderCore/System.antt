-- ===== src/OrderCore/System.antt =====
-- order-core-service as a whole (order-core-service/app/main.py): the two subscribers and the relay over one database,
-- in any order, with a database and a broker that may fail at any call.
pub mod Sound
pub mod Decided
pub mod Drained
pub mod Requests
use profi_notifications.Prelude.{[], Bool, ◌≡◌, ℕ, Text, List}
use profi_notifications.OrderCore.Subscribers.{
  on_parse_results, on_assess_results, handle_batch, handle_verdict,
}
use profi_notifications.OrderCore.Relay.Poll.{poll_once}
use profi_notifications.Prelude.Json.{Fields}
use profi_notifications.OrderCore.Effects.{Answer, World}
use profi_notifications.OrderCore.Guard.{Parsed}
use profi_notifications.OrderCore.Db.{Db}
use profi_notifications.OrderCore.Wire.{AssessmentResultMessage, ParseResultMessage}
use profi_notifications.OrderCore.Consistency.{empty_db}

-- main.py gives the handlers their settings; the parsers of the messages are pydantic's.
pub record Wiring : Type 0 where
  pub parse_batch : Fields → Parsed ParseResultMessage
  pub parse_verdict : Fields → Parsed AssessmentResultMessage
  pub parse_queue : Text
  pub assess_result_queue : Text
  pub notify_threshold : ℕ
  pub batch_size : ℕ

-- One thing that happens: a message is delivered, the relay makes a turn, or the answers of the
-- environment change. A transaction takes its time `now` from the clock of the database.
pub data Step (c : Wiring) : World Db → World Db → Type 0 where
  batch_delivered :
      (now : ℕ) (raw : Fields) (w : World Db)
      → Step c w (on_parse_results c.parse_batch c.parse_queue now raw w).1
  verdict_delivered :
      (now : ℕ) (raw : Fields) (w : World Db)
      → Step c w
          (on_assess_results c.parse_verdict c.assess_result_queue c.notify_threshold now raw w).1
  relayed :
      (locked : ℕ → Bool) (now : ℕ) (w : World Db)
      → Step c w (poll_once locked c.batch_size now w).1
  environment :
      (answers confirms : List Answer) (w : World Db)
      → Step c w (record w { answers = answers; confirms = confirms })

pub data Reach (c : Wiring) (w : World Db) : World Db → Type 0 where
  here : Reach c w w
  next : {u v : World Db} → Reach c w u → Step c u v → Reach c w v

-- The service before its first message.
abbrev pub fresh_world : World Db
fresh_world = record { committed = empty_db; log = []; sent = []; answers = []; confirms = [] }
