-- ===== src/OrderCore/Ingest/Spec.antt =====
-- What a batch of orders is to do to the tables, once and a second time.
use profi_notifications.Prelude.{
  ℕ, ◌≡◌, refl, Bool, true, not, ◌||◌, List, [], ◌∷◌, any, any-append, if◌then◌else◌, arith,
  text_eq_refl,
}
use profi_notifications.OrderCore.Domain.{source_value}
use profi_notifications.OrderCore.Dto.{IncomingOrder}
use profi_notifications.OrderCore.Wire.{assess_request_payload}
use profi_notifications.OrderCore.Db.{
  assess_request, Db, is_order, insert_order, insert_event, order_row, event_key, assess_kind,
  fits_order,
}

-- The key of the order is in the table.
unfoldable pub is_known : IncomingOrder → Db → Bool
is_known o db = any (is_order (source_value o.source) o.external_id) db.orders

abbrev pub is_settled : IncomingOrder → Db → Bool
is_settled o db = not (fits_order o) || is_known o db

module _ (now : ℕ) where
  -- The event that asks llm for an assessment, if its key is new.
  unfoldable pub queue_request : IncomingOrder → Db → Db
  queue_request o db =
      (insert_event now assess_request (event_key assess_kind o.source o.external_id)
        (assess_request_payload o) db).1

  -- One order: a known one changes nothing, a new one adds its row and its event.
  unfoldable pub store_order : IncomingOrder → Db → Db
  unfolding queue_request is_known
  store_order o db = if is_settled o db then db else queue_request o (insert_order now o db).1

  unfoldable pub store_orders : List IncomingOrder → Db → Db
  store_orders [] db = db
  store_orders (o ∷ batch) db = store_orders batch (store_order o db)

  known-queue : (p o : IncomingOrder) (db : Db) → is_known p (queue_request o db) ≡ is_known p db
  unfolding queue_request is_known insert_event
  known-queue p o db = ground arith

  known-insert :
      (p o : IncomingOrder) (db : Db)
      → is_known p db ≡ true
      → is_known p (insert_order now o db).1 ≡ true
  unfolding is_known insert_order
  known-insert p o db h = ground (
    arith,
    any-append (is_order (source_value p.source) p.external_id) db.orders
        (order_row db.next_id now o ∷ []),
  )

  known-insert_self :
      (o : IncomingOrder) (db : Db)
      → fits_order o ≡ true
      → is_known o (insert_order now o db).1 ≡ true
  unfolding is_known insert_order is_order order_row
  known-insert_self o db h = ground (
    arith,
    text_eq_refl (source_value o.source),
    text_eq_refl o.external_id,
    any-append (is_order (source_value o.source) o.external_id) db.orders
        (order_row db.next_id now o ∷ []),
  )

  settled-store :
      (p o : IncomingOrder) (db : Db)
      → is_settled p db ≡ true
      → is_settled p (store_order o db) ≡ true
  unfolding store_order
  settled-store p o db h =
      ground (arith, known-queue p o (insert_order now o db).1, known-insert p o db)

  settled-store_self : (o : IncomingOrder) (db : Db) → is_settled o (store_order o db) ≡ true
  unfolding store_order
  settled-store_self o db =
      ground (arith, known-queue o o (insert_order now o db).1, known-insert_self o db)

  pub settled-store_orders :
      (p : IncomingOrder) (batch : List IncomingOrder) (db : Db)
      → is_settled p db ≡ true
      → is_settled p (store_orders batch db) ≡ true
  unfolding store_orders
  settled-store_orders p [] db h = h
  settled-store_orders p (o ∷ batch) db h =
      settled-store_orders p batch (store_order o db) (settled-store p o db h)

-- Every order of the batch is settled.
abbrev pub AllSettled : List IncomingOrder → Db → Type 0
AllSettled [] db = Unit
AllSettled (o ∷ batch) db = (is_settled o db ≡ true) × AllSettled batch db

-- After a batch is stored, each of its orders is in the table (or could never be).
pub store_orders-AllSettled :
    (now : ℕ) (batch : List IncomingOrder) (db : Db) → AllSettled batch (store_orders now batch db)
unfolding store_orders
store_orders-AllSettled now [] db = tt
store_orders-AllSettled now (o ∷ batch) db = (
  settled-store_orders now o batch (store_order now o db) (settled-store_self now o db),
  store_orders-AllSettled now batch (store_order now o db),
)

pub store_orders-of_settled :
    (now : ℕ) (batch : List IncomingOrder) (db : Db)
    → AllSettled batch db
    → store_orders now batch db ≡ db
unfolding store_orders store_order
store_orders-of_settled now [] db h = refl
store_orders-of_settled now (o ∷ batch) db h = rw (h.0) (store_orders-of_settled now batch db h.1)

-- Storing a batch a second time, at whatever time, changes nothing.
pub store_orders_idem :
    (t now : ℕ) (batch : List IncomingOrder) (db : Db)
    → store_orders t batch (store_orders now batch db) ≡ store_orders now batch db
store_orders_idem t now batch db =
    store_orders-of_settled t batch (store_orders now batch db)
      (store_orders-AllSettled now batch db)
