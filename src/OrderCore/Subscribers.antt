-- ===== src/OrderCore/Subscribers.antt =====
-- order-core-service/app/infrastructure/messaging/subscribers.py, with the handlers that main.py
-- gives them.
pub mod Verdicts
use profi_notifications.Prelude.{ℕ, Text}
use profi_notifications.Prelude.Json.{Fields}
use profi_notifications.OrderCore.Domain.{AssessmentOutcome}
use profi_notifications.OrderCore.Dto.{Result, ok, err}
use profi_notifications.OrderCore.Wire.{
  ParseResultMessage, AssessmentResultMessage, to_incoming_orders, to_assessment_outcome,
}
use profi_notifications.OrderCore.Effects.{World}
use profi_notifications.OrderCore.Db.{Db}
use profi_notifications.OrderCore.Guard.{Parsed, guard}
use profi_notifications.OrderCore.Ingest
use profi_notifications.OrderCore.Process

-- register_parse_subscriber: its `_handle`
unfoldable pub handle_batch : ℕ → ParseResultMessage → World Db → Result Unit × World Db
handle_batch now message = Ingest.handle now (to_incoming_orders message)

unfoldable pub on_parse_results :
    (parse : Fields → Parsed ParseResultMessage) (queue : Text) (now : ℕ)
    → Fields
    → World Db
    → Result Unit × World Db
on_parse_results parse queue now = guard queue parse (handle_batch now)

-- The conversion raises before the handler runs.
unfoldable pub handle_converted :
    ℕ → ℕ → Result AssessmentOutcome → World Db → Result Unit × World Db
handle_converted threshold now (err e) w = (err e, w)
handle_converted threshold now (ok outcome) w = Process.handle threshold now outcome w

-- register_assess_subscriber: its `_handle`
unfoldable pub handle_verdict : ℕ → ℕ → AssessmentResultMessage → World Db → Result Unit × World Db
unfolding handle_converted
handle_verdict threshold now message =
    handle_converted threshold now (to_assessment_outcome message)

unfoldable pub on_assess_results :
    (parse : Fields → Parsed AssessmentResultMessage) (queue : Text) (threshold now : ℕ)
    → Fields
    → World Db
    → Result Unit × World Db
on_assess_results parse queue threshold now = guard queue parse (handle_verdict threshold now)
