-- ===== src/OrderCore/Process/Spec.antt =====
-- What a verdict is to do to the tables, as a function of them.
use profi_notifications.Prelude.{ℕ, Bool, true, false, Option, none, some, if◌then◌else◌}
use profi_notifications.OrderCore.Domain.{
  profi, source_value, notify_requested, no_notify, can_apply_assessment, AssessmentOutcome,
  decide_notification, Order,
}
use profi_notifications.OrderCore.Dto.{Result, ok, err}
use profi_notifications.OrderCore.Wire.{notification_payload}
use profi_notifications.OrderCore.Db.{
  notify, Db, find_order, insert_event, update_status, read_order, event_key, notify_kind,
}

module _ (now : ℕ) where
  -- The status that the policy gives, and the event of a positive decision.
  unfoldable pub apply_verdict : AssessmentOutcome → Bool → Db → Db
  apply_verdict o true db =
      (insert_event now notify (event_key notify_kind profi o.order_id)
        (notification_payload o.notification)
        (update_status now (source_value profi) o.order_id notify_requested
          (some o.suitability_score) db).1).1
  apply_verdict o false db =
      (update_status now (source_value profi) o.order_id no_notify (some o.suitability_score) db).1

module _ (threshold now : ℕ) where
  unfoldable pub verdict_on : AssessmentOutcome → Result (Option Order) → Db → Db
  verdict_on o (ok (some order)) db =
      if can_apply_assessment order.status
      then apply_verdict now o (decide_notification o threshold).notify db
      else db
  verdict_on o (ok none) db = db
  verdict_on o (err e) db = db

  unfoldable pub store_verdict : AssessmentOutcome → Db → Db
  unfolding verdict_on apply_verdict
  store_verdict o db =
      verdict_on o (read_order (find_order (source_value profi) o.order_id db.orders)) db
