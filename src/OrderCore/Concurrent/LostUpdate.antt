-- ===== src/OrderCore/Concurrent/LostUpdate.antt =====
-- Two verdicts on one order whose transactions both read it before one of them writes.
use mathlib.Core.Path.{ap}
use profi_notifications.Prelude.{Option, ap}
use profi_notifications.OrderCore.Dto.{Result, ok}
use profi_notifications.OrderCore.Consistency.{row_of, IsConsistent}
use profi_notifications.OrderCore.Process.{process_found}
use profi_notifications.OrderCore.Db.{read_order, OrderRow, Db}
use profi_notifications.OrderCore.Domain.{profi, status_value, assess_requested, AssessmentOutcome}
use profi_notifications.Prelude.{[], some, ◌≡◌, ℕ}
use profi_notifications.OrderCore.Effects.{lift, in_transaction, World}
use profi_notifications.OrderCore.Concurrent.{
  Option, Result, profi, read_order, [], process_found, lift, Order, Db, AssessmentOutcome,
  in_transaction, ℕ, begin_verdict, finish_verdict,
}

module _ (threshold now now' : ℕ) (o o' : AssessmentOutcome) (w : World Db) (row : OrderRow)
    (h : IsConsistent w.committed) (same : o'.order_id ≡ o.order_id)
    (at : row_of o.order_id w.committed ≡ some row)
    (waits : row.status ≡ status_value assess_requested) (a : w.answers ≡ []) where
  -- Both transactions read the order before one of them writes.
  abbrev first_done : World Db
  first_done = (finish_verdict threshold (begin_verdict now o w.committed) w).1

  abbrev both_done : World Db
  both_done = (finish_verdict threshold (begin_verdict now' o' w.committed) first_done).1

  abbrev WasRead : OrderRow → Type 0
  WasRead found =
      (order : Order) × (read_order (row_of o.order_id w.committed) ≡ ok (some order))
      × (order.status ≡ assess_requested)
