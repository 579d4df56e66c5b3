-- ===== src/OrderCore/Process.antt =====
-- order-core-service/app/application/process_assessment.py.
pub mod Spec
pub mod Atomic
pub mod Unknown
pub mod Refines
pub mod Decides
use profi_notifications.Prelude.{Text, ℕ, Option, none, some, codes, ◌++◌, if◌then◌else◌}
use profi_notifications.OrderCore.Domain.{
  profi, AssessmentOutcome, Decision, decide_notification, can_apply_assessment, Order,
  notify_requested, no_notify,
}
use profi_notifications.OrderCore.Dto.{Result, permanent}
use profi_notifications.OrderCore.Effects.{
  Tx, World, raise, ◌>>=◌, ◌>>◌, write_log, assessment_ignored, notification_requested,
  order_no_notify, commit, in_transaction,
}
use profi_notifications.OrderCore.Db.{Db}
use profi_notifications.OrderCore.Ports.{Ports}
use profi_notifications.OrderCore.Ports.Sql.{sql_ports}

abbrev pub unknown_reason : Text → Text
unknown_reason order_id = codes "unknown order " ++ order_id

module _ {D : Type 0} (ports : Ports D) (threshold : ℕ) where
  -- The two branches on the decision.
  unfoldable pub apply_decision : AssessmentOutcome → Decision → Tx D Unit
  apply_decision outcome decision =
      if decision.notify
      then (do
        ports.set_status profi outcome.order_id notify_requested (some outcome.suitability_score)
        ports.add_notification profi outcome.order_id outcome.notification
        write_log (notification_requested outcome.order_id outcome.suitability_score))
      else (do
        ports.set_status profi outcome.order_id no_notify (some outcome.suitability_score)
        write_log (order_no_notify outcome.order_id decision.reason))

  unfoldable pub process_found : AssessmentOutcome → Option Order → Tx D Unit
  unfolding apply_decision
  process_found outcome none = raise (permanent (unknown_reason outcome.order_id))
  process_found outcome (some order) =
      if can_apply_assessment order.status
      then (do apply_decision outcome (decide_notification outcome threshold); commit)
      else (do write_log (assessment_ignored outcome.order_id order.status); commit)

  unfoldable pub process : AssessmentOutcome → Tx D Unit
  unfolding process_found
  process outcome = do order ← ports.get profi outcome.order_id; process_found outcome order

  -- ProcessAssessment.handle
  unfoldable pub process_outcome : AssessmentOutcome → World D → Result Unit × World D
  process_outcome outcome = in_transaction (process outcome)

-- The use case over PostgreSQL; `now` is the time at which the transaction begins.
unfoldable pub handle : ℕ → ℕ → AssessmentOutcome → World Db → Result Unit × World Db
unfolding process_outcome
handle threshold now = process_outcome (sql_ports now) threshold
