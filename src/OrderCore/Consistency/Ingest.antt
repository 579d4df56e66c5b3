-- ===== src/OrderCore/Consistency/Ingest.antt =====
-- What a stored batch does to the agreement of the tables.
use profi_notifications.Prelude.{
  ℕ, ◌≡◌, refl, inl, inr, true, false, ◌&&◌, none, some, List, [], ◌∷◌, Text, text_eq, text_eq_iff,
  text_eq_refl, arith, Bool-cases, ◌==◌, if◌then◌else◌,
}
use profi_notifications.OrderCore.Consistency.{row_of, requests, notices, Agrees, IsConsistent}
use profi_notifications.OrderCore.Domain.{Source, profi, source_value}
use profi_notifications.OrderCore.Dto.{IncomingOrder}
use profi_notifications.OrderCore.Wire.{assess_request_payload}
use profi_notifications.OrderCore.Ingest.Atomic.{fits_external_id}
use profi_notifications.OrderCore.Db.{
  assess_request, Db, is_order, find_order, insert_order, order_row, insert_event, event_key,
  assess_kind, notify_kind, fits_order,
}
use profi_notifications.OrderCore.Db.Keys.{event_key-injective, event_key-kinds}
use profi_notifications.OrderCore.Db.Lookup.{find_order-append, any-is_order, or_else}
use profi_notifications.OrderCore.Db.Events.{events-insert}
use profi_notifications.OrderCore.Ingest.Spec.{
  is_known, is_settled, queue_request, store_order, store_orders,
}

module _ (now : ℕ) (o : IncomingOrder) (db : Db) (k : Text) (new : is_settled o db ≡ false) where
  abbrev pub stored : Db
  stored = store_order now o db

  inserted : Db
  inserted = (insert_order now o db).1

  source_profi : (s : Source) → s ≡ profi
  source_profi profi = refl

  pub new_fits : fits_order o ≡ true
  new_fits = ground (arith, new)

  pub row_of-stored :
      row_of k stored
      ≡ or_else
          (row_of k db)
          (if text_eq o.external_id k then some (order_row db.next_id now o) else none)
  unfolding store_order queue_request insert_event insert_order find_order is_order order_row
  row_of-stored = rw new (
      ground (
        arith,
        new_fits,
        find_order-append (source_value profi) k db.orders (order_row db.next_id now o ∷ []),
        source_profi o.source,
        text_eq_refl (source_value profi),
      ))

  outbox-inserted : inserted.outbox ≡ db.outbox
  unfolding inserted insert_order
  outbox-inserted = ground arith

  pub requests-stored :
      requests k stored
      ≡ (if (requests o.external_id db == 0) && text_eq o.external_id k then 1 else requests k db)
  unfolding store_order queue_request inserted
  requests-stored = rw new (
      ground (
        arith,
        events-insert now assess_request (event_key assess_kind o.source o.external_id)
            (assess_request_payload o) inserted (event_key assess_kind profi k)
            (fits_external_id o new_fits),
        source_profi o.source,
        event_key-injective assess_kind profi o.external_id k,
        outbox-inserted,
      ))

  pub notices-stored : notices k stored ≡ notices k db
  unfolding store_order queue_request inserted
  notices-stored = rw new (
      ground (
        arith,
        events-insert now assess_request (event_key assess_kind o.source o.external_id)
            (assess_request_payload o) inserted (event_key notify_kind profi k)
            (fits_external_id o new_fits),
        source_profi o.source,
        event_key-kinds profi profi o.external_id k,
        outbox-inserted,
      ))

  pub unknown : row_of o.external_id db ≡ none
  unfolding is_known
  unknown =
      ground (
        arith,
        new,
        any-is_order (source_value profi) o.external_id db.orders,
        source_profi o.source,
      )

  stored-Agrees :
      Agrees (row_of k db) (requests k db) (notices k db)
      → Agrees (row_of o.external_id db) (requests o.external_id db) (notices o.external_id db)
      → Agrees (row_of k stored) (requests k stored) (notices k stored)
  unfolding order_row fits_order
  stored-Agrees h ho =
      rw (row_of-stored, requests-stored, notices-stored)
        (ground (arith, unknown, text_eq_iff o.external_id k))

store_order-IsConsistent :
    (now : ℕ) (o : IncomingOrder) (db : Db) → IsConsistent db → IsConsistent (store_order now o db)
unfolding store_order
store_order-IsConsistent now o db h = elim (Bool-cases (is_settled o db)) [
  | inl old ↦ rw old h
  | inr new ↦ record {
    agrees = λ k. stored-Agrees now o db k new (h.agrees k) (h.agrees o.external_id);
  }
]

pub store_orders-IsConsistent :
    (now : ℕ) (batch : List IncomingOrder) (db : Db)
    → IsConsistent db
    → IsConsistent (store_orders now batch db)
unfolding store_orders
store_orders-IsConsistent now [] db h = h
store_orders-IsConsistent now (o ∷ batch) db h =
    store_orders-IsConsistent now batch (store_order now o db) (store_order-IsConsistent now o db h)
