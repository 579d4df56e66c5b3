-- ===== src/OrderCore/Consistency/FirstVerdict.antt =====
-- What the specification of a verdict does to consistent tables: to its order, to every other one,
-- and after an earlier verdict.
use profi_notifications.Prelude.{
  text_eq_iff, ◌≤◌, arith, length, sym, ap, false, true, refl, if◌then◌else◌, ◌∙◌, leb, ◌≢◌, ℕ, ◌≡◌,
  Text,
}
use profi_notifications.OrderCore.Domain.{
  status_value-injective, decide_notification, OrderStatus, AssessmentOutcome, status_value,
}
use profi_notifications.OrderCore.Db.{update_status, assign, OrderRow, Db}
use profi_notifications.OrderCore.Process.Spec.{apply_verdict, store_verdict}
use profi_notifications.OrderCore.Consistency.{
  text_eq_iff, arith, length, requests, text_eq_refl, no_notify, notices, notify_requested, Bool,
  assess_requested, some, row_of, IsConsistent,
}
use profi_notifications.OrderCore.Consistency.Verdict.{
  requests-notice, agreed, notices-notice, row_of-applied, store_verdict-IsConsistent, unknown,
  ignored, waiting, branch,
}
use mathlib.Core.Option.{none-ne-some, some-injective}

-- The status that a decision gives.
abbrev pub decided_status : Bool → OrderStatus
decided_status b = if b then notify_requested else no_notify

decided_differs : (b : Bool) → status_value (decided_status b) ≢ status_value assess_requested
decided_differs true e = cc (status_value-injective notify_requested assess_requested e)
decided_differs false e = cc (status_value-injective no_notify assess_requested e)

module _ (threshold now : ℕ) (o : AssessmentOutcome) (db : Db) (h : IsConsistent db) where
  -- a row that waits no longer leaves nothing to do
  not_waiting :
      ((row : OrderRow)
        → row_of o.order_id db ≡ some row
        → row.status ≢ status_value assess_requested)
      → store_verdict threshold now o db ≡ db
  not_waiting w = elim (branch threshold now o db h) [
    | waiting row e s p ↦ absurd (w row e s)
    | ignored row e s p ↦ p
    | unknown e p ↦ p
  ]

  decided_row :
      (b : Bool) (found : OrderRow)
      → row_of o.order_id db ≡ some found
      → row_of o.order_id (apply_verdict now o b db)
        ≡ some (assign now (decided_status b) (some o.suitability_score) found)
  decided_row b found e = row_of-applied now o db o.order_id b ∙ rw (e, text_eq_refl) refl

  answered_once :
      (row : OrderRow)
      → row_of o.order_id (store_verdict threshold now o db) ≡ some row
      → row.status ≢ status_value assess_requested
  unfolding assign
  answered_once row e = elim (branch threshold now o db h) [
    | waiting found f s p ↦
        let b = (decide_notification o threshold).notify in
        let q = some-injective _ _ (sym (decided_row b found f) ∙ (rw p at e)) in
        λ r. decided_differs b (ap (λ (x : OrderRow). x.status) q ∙ r)
    | ignored found f s p ↦
        let q = some-injective _ _ (sym f ∙ (rw p at e)) in
        λ r. s (ap (λ (x : OrderRow). x.status) q ∙ r)
    | unknown f p ↦ λ r. none-ne-some row (sym f ∙ (rw p at e))
  ]

pub stored_first :
    (threshold now now' : ℕ) (o o' : AssessmentOutcome) (db : Db)
    → IsConsistent db
    → o'.order_id ≡ o.order_id
    → store_verdict threshold now' o' (store_verdict threshold now o db)
      ≡ store_verdict threshold now o db
stored_first threshold now now' o o' db h same =
    not_waiting threshold now' o' _ (store_verdict-IsConsistent threshold now o db h)
      λ row e. answered_once threshold now o db h row (rw same at e)

notify-decide :
    (threshold : ℕ) (o : AssessmentOutcome)
    → (decide_notification o threshold).notify ≡ leb threshold o.suitability_score
unfolding decide_notification
notify-decide threshold o = ground arith

module _ (now : ℕ) (o : AssessmentOutcome) (db : Db) (h : IsConsistent db) (row : OrderRow)
    (at : row_of o.order_id db ≡ some row) (s : row.status ≡ status_value assess_requested) where
  fresh : (length o.order_id ≤ 128) × (notices o.order_id db ≡ 0)
  fresh = agreed now o db o.order_id row at s (h.agrees o.order_id)

  notices-applied :
      (b : Bool) → notices o.order_id (apply_verdict now o b db) ≡ (if b then 1 else 0)
  unfolding apply_verdict update_status
  notices-applied true =
      rw (notices-notice now o db o.order_id (fresh.0), fresh.1, text_eq_refl) refl
  notices-applied false = fresh.1

  -- what every other order and its events are after the verdict
  abbrev Untouched : Text → Db → Type 0
  Untouched k new =
      (row_of k new ≡ row_of k db)
      × (requests k new ≡ requests k db)
      × (notices k new ≡ notices k db)

  others : (b : Bool) (k : Text) → k ≢ o.order_id → Untouched k (apply_verdict now o b db)
  unfolding apply_verdict update_status
  others true k ne = (
    row_of-applied now o db k true ∙ ground (arith, text_eq_iff o.order_id k),
    requests-notice now o db k fresh.0,
    notices-notice now o db k fresh.0 ∙ ground (arith, text_eq_iff o.order_id k),
  )
  others false k ne =
      (row_of-applied now o db k false ∙ ground (arith, text_eq_iff o.order_id k), refl, refl)

pub stored_decision :
    (threshold now : ℕ) (o : AssessmentOutcome) (db : Db) (row : OrderRow)
    → IsConsistent db
    → row_of o.order_id db ≡ some row
    → row.status ≡ status_value assess_requested
    → let new = store_verdict threshold now o db in
      let b = leb threshold o.suitability_score in
      (row_of o.order_id new ≡ some (assign now (decided_status b) (some o.suitability_score) row))
      × (notices o.order_id new ≡ (if b then 1 else 0))
stored_decision threshold now o db row h at s = elim (branch threshold now o db h) [
  | waiting found f w p ↦
      rw (p, notify-decide threshold o)
        (
          decided_row threshold now o db h (leb threshold o.suitability_score) row at,
          notices-applied now o db h row at s (leb threshold o.suitability_score),
        )
  | ignored found f n p ↦
      absurd (n (ap (λ (x : OrderRow). x.status) (some-injective _ _ (sym f ∙ at)) ∙ s))
  | unknown f p ↦ absurd (none-ne-some row (sym f ∙ at))
]

pub stored_apart :
    (threshold now : ℕ) (o : AssessmentOutcome) (db : Db) (k : Text)
    → IsConsistent db
    → k ≢ o.order_id
    → let new = store_verdict threshold now o db in
      (row_of k new ≡ row_of k db)
      × (requests k new ≡ requests k db)
      × (notices k new ≡ notices k db)
stored_apart threshold now o db k h ne = elim (branch threshold now o db h) [
  | waiting found f w p ↦
      rw p (others now o db h found f w (decide_notification o threshold).notify k ne)
  | ignored found f n p ↦ rw p (refl, refl, refl)
  | unknown f p ↦ rw p (refl, refl, refl)
]
