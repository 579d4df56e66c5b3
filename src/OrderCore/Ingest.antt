-- ===== src/OrderCore/Ingest.antt =====
-- order-core-service/app/application/ingest_orders.py.
pub mod Spec
pub mod Atomic
pub mod Redelivery
pub mod Oversized
pub mod Refines
use profi_notifications.Prelude.{ℕ, List, [], ◌∷◌, if◌then◌else◌}
use profi_notifications.OrderCore.Dto.{IncomingOrder, Result}
use profi_notifications.OrderCore.Effects.{
  Tx, World, pure, ◌>>=◌, ◌>>◌, write_log, order_ingested, order_duplicate, commit, in_transaction,
}
use profi_notifications.OrderCore.Db.{Db}
use profi_notifications.OrderCore.Ports.{Ports}
use profi_notifications.OrderCore.Ports.Sql.{sql_ports}

module _ {D : Type 0} (ports : Ports D) where
  -- The body of the loop over the batch.
  unfoldable pub ingest_order : IncomingOrder → Tx D Unit
  ingest_order order = ports.insert_new order >>= λ inserted.
      if inserted
      then (do ports.add_assessment_request order; write_log (order_ingested order.external_id))
      else write_log (order_duplicate order.external_id)

  unfoldable pub ingest_orders : List IncomingOrder → Tx D Unit
  unfolding ingest_order
  ingest_orders [] = pure tt
  ingest_orders (order ∷ batch) = do ingest_order order; ingest_orders batch

  -- IngestOrders.handle
  unfoldable pub ingest_batch : List IncomingOrder → World D → Result Unit × World D
  ingest_batch batch = in_transaction (do ingest_orders batch; commit)

-- The use case over PostgreSQL; `now` is the time at which the transaction begins.
unfoldable pub handle : ℕ → List IncomingOrder → World Db → Result Unit × World Db
unfolding ingest_batch
handle now = ingest_batch (sql_ports now)
