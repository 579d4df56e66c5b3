-- ===== src/OrderCore/Consistency.antt =====
-- The agreement of the two tables, an invariant of order-core-service.
pub mod Ingest
pub mod Verdict
pub mod FirstVerdict
use profi_notifications.Prelude.{
  ℕ, ◌+◌, ◌≤◌, ◌≡◌, refl, ◌⊎◌, inl, inr, Bool, true, false, not, ◌&&◌, Option, none, some, List, [],
  ◌∷◌, ◌++◌, Text, text_eq, text_eq_iff, text_eq_refl, arith, any, length, Bool-cases, ◌==◌,
  if◌then◌else◌,
}
use profi_notifications.OrderCore.Domain.{
  Source, profi, source_value, status_value, assess_requested, notify_requested, no_notify,
}
use profi_notifications.OrderCore.Dto.{IncomingOrder}
use profi_notifications.OrderCore.Wire.{assess_request_payload}
use profi_notifications.OrderCore.Ingest.Atomic.{fits_external_id}
use profi_notifications.OrderCore.Db.{
  assess_request, OrderRow, Db, is_order, find_order, insert_order, order_row, insert_event,
  event_key, assess_kind, notify_kind, fits_order,
}
use profi_notifications.OrderCore.Db.Keys.{
  event_key-injective, event_key-kinds, event_key-kinds', length-event_key_assess,
  length-event_key_notify,
}
use profi_notifications.OrderCore.Db.Lookup.{find_order-append, any-is_order, or_else}
use profi_notifications.OrderCore.Db.Events.{events, events-insert}
use profi_notifications.OrderCore.Ingest.Spec.{
  is_known, is_settled, queue_request, store_order, store_orders,
}

-- The stored order of an external id, and the numbers of its events of either kind.
abbrev pub row_of : Text → Db → Option OrderRow
row_of k db = find_order (source_value profi) k db.orders

abbrev pub requests : Text → Db → ℕ
requests k db = events (event_key assess_kind profi k) db.outbox

abbrev pub notices : Text → Db → ℕ
notices k db = events (event_key notify_kind profi k) db.outbox

-- The status tells whether a notification was asked for, and is not `failed`.
abbrev pub Told : Text → ℕ → Type 0
Told status n =
    ((status ≡ status_value assess_requested) × (n ≡ 0))
    ⊎ ((status ≡ status_value notify_requested) × (n ≡ 1))
    ⊎ ((status ≡ status_value no_notify) × (n ≡ 0))

-- An order that is stored has one request for an assessment, an unknown one has no event.
abbrev pub Agrees : Option OrderRow → ℕ → ℕ → Type 0
Agrees none a n = (a ≡ 0) × (n ≡ 0)
Agrees (some row) a n = (length row.external_id ≤ 128) × (a ≡ 1) × Told row.status n

pub record IsConsistent (db : Db) : Type 0 where
  pub agrees : (k : Text) → Agrees (row_of k db) (requests k db) (notices k db)

-- The empty tables, as the first migration leaves them.
abbrev pub empty_db : Db
empty_db = record { orders = []; outbox = []; next_id = 0 }

pub empty_db-IsConsistent : IsConsistent empty_db
unfolding find_order
empty_db-IsConsistent = record { agrees = λ k. (refl, refl) }
