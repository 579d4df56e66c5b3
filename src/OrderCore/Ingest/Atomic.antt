-- ===== src/OrderCore/Ingest/Atomic.antt =====
-- How much of a delivered batch is stored.
use profi_notifications.OrderCore.Ports.Sql.{sql_ports}
use profi_notifications.Prelude.{ℕ, ◌≡◌, refl, true, List, [], ◌∷◌, arith, ◌≤◌, length}
use profi_notifications.OrderCore.Dto.{IncomingOrder, ok}
use profi_notifications.OrderCore.Effects.{
  World, Session, ◌>>=◌, statement, write_log, in_transaction, commit,
}
use profi_notifications.OrderCore.Effects.Atomic.{
  in_transaction-sent, Ran, IsAtomic, in_transaction-IsAtomic,
}
use profi_notifications.OrderCore.Db.{
  Db, insert_order, insert_event, fits_order, event_key, assess_kind,
}
use profi_notifications.OrderCore.Db.Keys.{length-event_key_assess}
use profi_notifications.OrderCore.Db.Repositories.{insert_new, add_assessment_request}
use profi_notifications.OrderCore.Ingest.{ingest_batch, ingest_order, ingest_orders, handle}
use profi_notifications.OrderCore.Ingest.Spec.{store_order, store_orders}

-- the external id of an order that fits leaves room for the key of its event
pub fits_external_id :
    (o : IncomingOrder)
    → fits_order o ≡ true
    → length (event_key assess_kind o.source o.external_id) ≤ 200
unfolding fits_order
fits_external_id o h = length-event_key_assess o.source o.external_id (ground arith)

module _ (now : ℕ) where
  ingest_order-Ran :
      (o : IncomingOrder) (s : Session Db)
      → Ran (store_order now o s.db) s (ingest_order (sql_ports now) o s)
  unfolding ingest_order store_order ◌>>=◌ statement write_log insert_order insert_event insert_new
      add_assessment_request
  ingest_order-Ran o s = record {
    uncommitted = ground arith;
    unsent = ground arith;
    wrote = ground arith;
  }

  ingest_orders-Ran :
      (batch : List IncomingOrder) (s : Session Db)
      → Ran (store_orders now batch s.db) s (ingest_orders (sql_ports now) batch s)
  unfolding ingest_orders store_orders ◌>>=◌
  ingest_orders-Ran [] s = record { uncommitted = refl; unsent = refl; wrote = λ _. refl }
  ingest_orders-Ran (o ∷ batch) s =
      let first = ingest_order-Ran o s in
      let rest = ingest_orders-Ran batch (ingest_order (sql_ports now) o s).1 in
      record {
        uncommitted = ground (arith, first.uncommitted, rest.uncommitted);
        unsent = ground (arith, first.unsent, rest.unsent);
        wrote = ground (arith, first.wrote, rest.wrote);
      }

  -- Ingestion itself sends nothing: the outbox does.
  pub sent-ingest :
      (batch : List IncomingOrder) (w : World Db) → (handle now batch w).1.sent ≡ w.sent
  unfolding handle ingest_batch
  sent-ingest batch w =
      in_transaction-sent (ingest_orders (sql_ports now) batch) w _
        (ingest_orders-Ran batch (record { world = w; db = w.committed }))

  -- Whatever the database answers, IngestOrders.handle does to the committed tables what the
  -- specification store_orders does with the whole batch if it returns, and if it raises this
  -- or nothing.
  pub ingest-IsAtomic :
      (batch : List IncomingOrder) (w : World Db)
      → IsAtomic w.committed (store_orders now batch w.committed) (handle now batch w)
  unfolding handle ingest_batch
  ingest-IsAtomic batch w =
      in_transaction-IsAtomic (ingest_orders (sql_ports now) batch) w _
        (ingest_orders-Ran batch (record { world = w; db = w.committed }))

  -- With a database that answers every call, and orders that fit the columns, the handler returns.
  ingest_order_total :
      (o : IncomingOrder) (s : Session Db)
      → fits_order o ≡ true
      → s.world.answers ≡ []
      → ((ingest_order (sql_ports now) o s).0 ≡ ok tt)
        × ((ingest_order (sql_ports now) o s).1.world.answers ≡ [])
  unfolding ingest_order ◌>>=◌ statement write_log insert_order insert_event insert_new
      add_assessment_request
  ingest_order_total o s f h = ground (arith, fits_external_id o f)

-- Every order of the batch fits the columns of its row.
abbrev pub AllFit : List IncomingOrder → Type 0
AllFit [] = Unit
AllFit (o ∷ batch) = (fits_order o ≡ true) × AllFit batch

ingest_orders_total :
    (now : ℕ) (batch : List IncomingOrder) (s : Session Db)
    → AllFit batch
    → s.world.answers ≡ []
    → ((ingest_orders (sql_ports now) batch s).0 ≡ ok tt)
      × ((ingest_orders (sql_ports now) batch s).1.world.answers ≡ [])
unfolding ingest_orders ◌>>=◌
ingest_orders_total now [] s f h = (refl, h)
ingest_orders_total now (o ∷ batch) s f h =
    let first = ingest_order_total now o s f.0 h in
    ground
      (arith, first, ingest_orders_total now batch (ingest_order (sql_ports now) o s).1 f.1 first.1)

-- If every order of the batch fits the columns of its row and the database answers every call,
-- then IngestOrders.handle returns.
pub ingest_total :
    (now : ℕ) (batch : List IncomingOrder) (w : World Db)
    → AllFit batch
    → w.answers ≡ []
    → (handle now batch w).0 ≡ ok tt
unfolding handle ingest_batch in_transaction ◌>>=◌ commit
ingest_total now batch w f h =
    ground (arith, ingest_orders_total now batch (record { world = w; db = w.committed }) f h)
