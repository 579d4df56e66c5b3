-- ===== src/OrderCore/Concurrent/Coherent.antt =====
-- What holds of the tables however the transactions of verdicts are interleaved.
use profi_notifications.OrderCore.Consistency.Verdict.{
  notices-notice, requests-notice, row_of-applied,
}
use profi_notifications.OrderCore.Db.Lookup.{find_order_key}
use profi_notifications.OrderCore.Consistency.Ingest.{
  new_fits, unknown, notices-stored, requests-stored, row_of-stored, stored,
}
use profi_notifications.OrderCore.Process.Spec.{apply_verdict}
use profi_notifications.OrderCore.Relay.Marks.{events-mark}
use profi_notifications.OrderCore.Domain.{
  profi, source_value, no_notify, notify_requested, assess_requested, status_value,
  AssessmentOutcome,
}
use profi_notifications.OrderCore.Dto.{IncomingOrder}
use profi_notifications.OrderCore.Consistency.{notices, requests, row_of}
use profi_notifications.OrderCore.Relay.{mark_rows}
use profi_notifications.OrderCore.Ingest.Spec.{is_settled, store_order, store_orders}
use profi_notifications.OrderCore.Db.{assign, fits_order, order_row, update_status, OrderRow, Db}
use profi_notifications.Prelude.{
  true, text_eq_iff, Bool, arith, none, [], ◌≤◌, inr, ◌⊎◌, false, length, inl, ◌∷◌, Bool-cases,
  some, List, ◌≡◌, Option, Text, ℕ,
}
use profi_notifications.OrderCore.Concurrent.{
  profi, source_value, Bool, ◌∷◌, List, IncomingOrder, AssessmentOutcome, Db, Option, ℕ,
}

-- The status and the number of notifications of an order: a status `no_notify` may stand beside a
-- notification, for a verdict that has not seen an earlier one overwrites its status.
abbrev pub Stated : Text → ℕ → Type 0
Stated status n =
    ((status ≡ status_value assess_requested) × (n ≡ 0))
    ⊎ ((status ≡ status_value notify_requested) × (n ≡ 1))
    ⊎ ((status ≡ status_value no_notify) × (n ≤ 1))

abbrev pub Coheres : Option OrderRow → ℕ → ℕ → Type 0
Coheres none a n = (a ≡ 0) × (n ≡ 0)
Coheres (some row) a n = (length row.external_id ≤ 128) × (a ≡ 1) × Stated row.status n

pub record IsCoherent (db : Db) : Type 0 where
  pub coheres : (k : Text) → Coheres (row_of k db) (requests k db) (notices k db)

-- The order of a key is stored: no transaction deletes a row.
abbrev pub IsStored : Text → Db → Type 0
IsStored k db = (row : OrderRow) × (row_of k db ≡ some row)

module _ (now : ℕ) (o : IncomingOrder) (db : Db) (k : Text) (new : is_settled o db ≡ false) where
  stored-Coheres :
      Coheres (row_of k db) (requests k db) (notices k db)
      → Coheres (row_of o.external_id db) (requests o.external_id db) (notices o.external_id db)
      → Coheres
          (row_of k (stored now o db k new))
          (requests k (stored now o db k new))
          (notices k (stored now o db k new))
  unfolding order_row fits_order
  stored-Coheres h ho =
      rw
        (
          row_of-stored now o db k new,
          requests-stored now o db k new,
          notices-stored now o db k new,
        )
        (ground
          (arith, unknown now o db k new, new_fits now o db k new, text_eq_iff o.external_id k))

store_order-IsCoherent :
    (now : ℕ) (o : IncomingOrder) (db : Db) → IsCoherent db → IsCoherent (store_order now o db)
unfolding store_order
store_order-IsCoherent now o db h = elim (Bool-cases (is_settled o db)) [
  | inl old ↦ rw old h
  | inr new ↦ record {
    coheres = λ k. stored-Coheres now o db k new (h.coheres k) (h.coheres o.external_id);
  }
]

pub store_orders-IsCoherent :
    (now : ℕ) (batch : List IncomingOrder) (db : Db)
    → IsCoherent db
    → IsCoherent (store_orders now batch db)
unfolding store_orders
store_orders-IsCoherent now [] db h = h
store_orders-IsCoherent now (o ∷ batch) db h =
    store_orders-IsCoherent now batch (store_order now o db) (store_order-IsCoherent now o db h)

pub mark_rows-IsCoherent :
    (now : ℕ) (is : List ℕ) (db : Db) → IsCoherent db → IsCoherent (mark_rows now is db)
unfolding mark_rows
mark_rows-IsCoherent now is db c = record { coheres = λ k. simp events-mark (c.coheres k) }

module _ (now : ℕ) (o : AssessmentOutcome) (db : Db) (k : Text) (found : OrderRow)
    (at : row_of o.order_id db ≡ some found) where
  fits_id :
      Coheres (row_of o.order_id db) (requests o.order_id db) (notices o.order_id db)
      → (length o.order_id ≤ 128) × (notices o.order_id db ≤ 1)
  fits_id h =
      let a : Coheres (some found) (requests o.order_id db) (notices o.order_id db) = rw at at h in
      ground (arith, find_order_key (source_value profi) o.order_id db.orders at)

  pub applied-Coheres :
      (b : Bool)
      → Coheres (row_of o.order_id db) (requests o.order_id db) (notices o.order_id db)
      → Coheres (row_of k db) (requests k db) (notices k db)
      → Coheres
          (row_of k (apply_verdict now o b db))
          (requests k (apply_verdict now o b db))
          (notices k (apply_verdict now o b db))
  unfolding apply_verdict update_status assign
  applied-Coheres true ho hk =
      let (fit, few) = fits_id ho in
      rw
        (
          row_of-applied now o db k true,
          requests-notice now o db k fit,
          notices-notice now o db k fit,
        )
        (ground (arith, at, text_eq_iff o.order_id k, few))
  applied-Coheres false ho hk =
      rw (row_of-applied now o db k false)
        (ground (arith, at, text_eq_iff o.order_id k, fits_id ho))
