-- ===== src/OrderCore/Ports/UseCases.antt =====
-- The two use cases over any implementation of their ports.
use profi_notifications.Prelude.{ℕ, List}
use profi_notifications.OrderCore.Domain.{AssessmentOutcome}
use profi_notifications.OrderCore.Dto.{IncomingOrder}
use profi_notifications.OrderCore.Effects.{World}
use profi_notifications.OrderCore.Effects.Atomic.{IsAtomic}
use profi_notifications.OrderCore.Ports.{Ports, Meaning, Implements}
use profi_notifications.OrderCore.Ingest.{ingest_batch}
use profi_notifications.OrderCore.Ingest.Refines.{store_batch, ingest_batch-IsAtomic}
use profi_notifications.OrderCore.Process.{process_outcome}
use profi_notifications.OrderCore.Process.Refines.{store_outcome, process_outcome-IsAtomic}

-- For every implementation of the ports whose operations commit and send nothing, and do to the tables
-- what they mean if they return: what IngestOrders.handle and ProcessAssessment.handle do to the
-- committed tables is, if they return, what the meanings of their operations do, one order after the
-- other with an event exactly for those that were inserted, and the first verdict on an order that may
-- take one; if they raise, this or nothing; whatever the calls of the transaction answer.
pub use_cases-IsAtomic :
    {D : Type 0} (ports : Ports D) (meaning : Meaning D) (i : Implements ports meaning)
    (batch : List IncomingOrder) (threshold : ℕ) (o : AssessmentOutcome) (w : World D)
    → IsAtomic w.committed
        (store_batch ports meaning i batch w.committed)
        (ingest_batch ports batch w)
      × IsAtomic w.committed
          (store_outcome ports meaning i threshold o w.committed)
          (process_outcome ports threshold o w)
use_cases-IsAtomic ports meaning i batch threshold o w = (
  ingest_batch-IsAtomic ports meaning i batch w,
  process_outcome-IsAtomic ports meaning i threshold o w,
)
