-- ===== src/OrderCore/Ingest/Refines.antt =====
-- IngestOrders over any implementation of its ports.
use profi_notifications.OrderCore.Ports.Runs.{logged, in_turn, Does-then, RunsAs, after}
use profi_notifications.OrderCore.Effects.{◌>>◌}
use profi_notifications.Prelude.{Bool, true, false, List, [], ◌∷◌, refl, if◌then◌else◌}
use profi_notifications.OrderCore.Dto.{IncomingOrder}
use profi_notifications.OrderCore.Effects.{
  order_duplicate, order_ingested, World, pure, ◌>>=◌, write_log,
}
use profi_notifications.OrderCore.Effects.Atomic.{IsAtomic, in_transaction-IsAtomic, opened}
use profi_notifications.OrderCore.Ports.{Ports, Meaning, Implements}
use profi_notifications.OrderCore.Ingest.{ingest_order, ingest_orders, ingest_batch}

module _ {D : Type 0} (ports : Ports D) (meaning : Meaning D) (i : Implements ports meaning) where
  -- What a new order does to the tables, and what one does that is known.
  abbrev pub store_if_new : IncomingOrder → Bool → D → D
  store_if_new o inserted d = if inserted then after (λ u e. e) (meaning.asked o d) else d

  abbrev pub store_one : IncomingOrder → D → D
  store_one o d = after (store_if_new o) (meaning.inserted o d)

  abbrev pub store_batch : List IncomingOrder → D → D
  store_batch [] d = d
  store_batch (o ∷ batch) d = store_batch batch (store_one o d)

  new_RunsAs :
      (o : IncomingOrder) (inserted : Bool)
      → RunsAs (store_if_new o inserted) (
          if inserted
          then (do ports.add_assessment_request o; write_log (order_ingested o.external_id))
          else write_log (order_duplicate o.external_id))
  new_RunsAs o true =
      Does-then (meaning.asked o) (ports.add_assessment_request o) (i.add_assessment_request o)
        (λ u d. d) (λ _. write_log (order_ingested o.external_id))
        (λ _. logged (order_ingested o.external_id))
  new_RunsAs o false = logged (order_duplicate o.external_id)

  ingest_order-RunsAs : (o : IncomingOrder) → RunsAs (store_one o) (ingest_order ports o)
  unfolding ingest_order
  ingest_order-RunsAs o =
      Does-then (meaning.inserted o) (ports.insert_new o) (i.insert_new o) (store_if_new o) _
        (new_RunsAs o)

  ingest_orders-RunsAs :
      (batch : List IncomingOrder) → RunsAs (store_batch batch) (ingest_orders ports batch)
  unfolding ingest_orders ◌>>=◌ pure
  ingest_orders-RunsAs [] s = record { uncommitted = refl; unsent = refl; wrote = λ _. refl }
  ingest_orders-RunsAs (o ∷ batch) s =
      in_turn (store_batch batch) (ingest_orders ports batch) (store_one o s.db) s
        (ingest_order ports o s) (ingest_order-RunsAs o s) (ingest_orders-RunsAs batch)

  -- For every implementation of the ports whose operations do to the tables what they mean, and
  -- commit and send nothing: IngestOrders.handle does to the committed tables, if it returns, what
  -- the meanings of its operations do for one order after the other, an event being queued exactly
  -- for those that were inserted; if it raises, this or nothing; whatever the database answers.
  pub ingest_batch-IsAtomic :
      (batch : List IncomingOrder) (w : World D)
      → IsAtomic w.committed (store_batch batch w.committed) (ingest_batch ports batch w)
  unfolding ingest_batch
  ingest_batch-IsAtomic batch w =
      in_transaction-IsAtomic (ingest_orders ports batch) w _
        (ingest_orders-RunsAs batch (opened w))
