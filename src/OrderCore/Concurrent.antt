-- ===== src/OrderCore/Concurrent.antt =====
-- Verdicts on one order at the same time: order-core-service takes up to `prefetch` messages before
-- it acknowledges one, and PostgreSQL runs their transactions at READ COMMITTED.
-- A transaction of ProcessAssessment first reads its order, without a lock, and writes later. From
-- its first write on it holds the lock of the row, so that the writes of two transactions on one
-- order stand one after the other: a second UPDATE waits, and then finds the committed row. Writes
-- on different orders touch different rows. So a transaction is two events here, the read and the
-- rest, and between them anything else may happen.
pub mod Coherent
pub mod Verdicts
pub mod Safe
pub mod LostUpdate
use profi_notifications.OrderCore.Ports.Sql.{sql_ports}
use profi_notifications.OrderCore.Effects.{World, lift, ◌>>=◌, in_transaction, Answer}
use profi_notifications.OrderCore.Ingest
use profi_notifications.OrderCore.Relay.Poll.{poll_once}
use profi_notifications.OrderCore.System.{Wiring, fresh_world}
use profi_notifications.OrderCore.Process.{process_found}
use profi_notifications.OrderCore.Db.{Db, find_order, read_order}
use profi_notifications.OrderCore.Dto.{Result, IncomingOrder}
use profi_notifications.OrderCore.Domain.{AssessmentOutcome, Order, profi, source_value}
use profi_notifications.Prelude.{ℕ, Bool, Option, List, [], ◌∷◌, ◌++◌}

-- A transaction that has read its order.
pub record Reading : Type 0 where
  pub now : ℕ
  pub outcome : AssessmentOutcome
  pub read : Result (Option Order)

pub record Service : Type 0 where
  pub world : World Db
  pub readings : List Reading

-- The first statement of `handle`, on the tables as they are.
unfoldable pub begin_verdict : ℕ → AssessmentOutcome → Db → Reading
begin_verdict now o db = record {
  now = now;
  outcome = o;
  read = read_order (find_order (source_value profi) o.order_id db.orders);
}

-- The rest of `handle`, in the same transaction.
unfoldable pub finish_verdict : ℕ → Reading → World Db → Result Unit × World Db
finish_verdict threshold r =
    in_transaction
      (lift r.read >>= λ order. process_found (sql_ports r.now) threshold r.outcome order)

pub data Event (c : Wiring) : Service → Service → Type 0 where
  begins :
      (now : ℕ) (o : AssessmentOutcome) (s : Service)
      → Event c s (record s { readings = begin_verdict now o s.world.committed ∷ s.readings })
  finishes :
      (before after : List Reading) (r : Reading) (w : World Db)
      → Event c
          (record { world = w; readings = before ++ r ∷ after })
          (record { world = (finish_verdict c.notify_threshold r w).1; readings = before ++ after })
  ingests :
      (now : ℕ) (batch : List IncomingOrder) (s : Service)
      → Event c s (record s { world = (Ingest.handle now batch s.world).1 })
  relays :
      (locked : ℕ → Bool) (now : ℕ) (s : Service)
      → Event c s (record s { world = (poll_once locked c.batch_size now s.world).1 })
  answers :
      (db broker : List Answer) (s : Service)
      → Event c s (record s { world = record s.world { answers = db; confirms = broker } })

pub data Trace (c : Wiring) (s : Service) : Service → Type 0 where
  start : Trace c s s
  then : {t u : Service} → Trace c s t → Event c t u → Trace c s u

abbrev pub fresh_service : Service
fresh_service = record { world = fresh_world; readings = [] }
