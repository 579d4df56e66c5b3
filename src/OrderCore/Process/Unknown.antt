-- ===== src/OrderCore/Process/Unknown.antt =====
-- A verdict on an order that is not stored.
use profi_notifications.OrderCore.Db.Repositories.{get}
use profi_notifications.OrderCore.Process.{
  process_outcome, none, AssessmentOutcome, ℕ, in_transaction, handle, process, process_found,
  unknown_reason,
}
use profi_notifications.Prelude.{arith, [], none, ℕ, ◌≡◌}
use profi_notifications.OrderCore.Db.Repositories.{get}
use profi_notifications.OrderCore.Effects.{
  World, raise, ◌>>=◌, close, rollback, statement, in_transaction,
}
use profi_notifications.OrderCore.Db.{Db, read_order}
use profi_notifications.OrderCore.Domain.{AssessmentOutcome}
use profi_notifications.OrderCore.Consistency.{row_of}
use profi_notifications.OrderCore.Dto.{permanent, err}

-- It raises a `PermanentError`; nothing is committed or sent.
pub handle_unknown :
    (threshold now : ℕ) (o : AssessmentOutcome) (w : World Db)
    → row_of o.order_id w.committed ≡ none
    → w.answers ≡ []
    → let (r, w') = handle threshold now o w in
      (r ≡ err (permanent (unknown_reason o.order_id)))
      × (w'.committed ≡ w.committed)
      × (w'.sent ≡ w.sent)
      × (w'.confirms ≡ w.confirms)
unfolding handle process_outcome process process_found get in_transaction statement rollback close
    ◌>>=◌ read_order raise
handle_unknown threshold now o w u a = ground arith
