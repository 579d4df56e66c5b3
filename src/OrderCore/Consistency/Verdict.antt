-- ===== src/OrderCore/Consistency/Verdict.antt =====
-- What a stored verdict does to the agreement of the tables.
use profi_notifications.Prelude.{
  sym, ap, ◌∙◌, Option-cases, ◌≢◌, ℕ, ◌≤◌, ◌≡◌, refl, inl, inr, Bool, true, false, none, some, Text,
  text_eq, text_eq_iff, length, arith, Bool-cases, ◌==◌, ◌&&◌, if◌then◌else◌,
}
use profi_notifications.OrderCore.Domain.{
  status_value-injective, profi, source_value, source_of-source_value, status_of,
  status_of-status_value, OrderStatus, notify_requested, no_notify, assess_requested, status_value,
  can_apply_assessment, AssessmentOutcome, decide_notification, Order,
}
use profi_notifications.OrderCore.Dto.{ok}
use profi_notifications.OrderCore.Wire.{notification_payload}
use profi_notifications.OrderCore.Db.{
  notify, OrderRow, Db, insert_event, update_status, assign, read_order, order_of, event_key,
  notify_kind, assess_kind,
}
use profi_notifications.OrderCore.Db.Keys.{
  event_key-injective, event_key-kinds', length-event_key_notify,
}
use profi_notifications.OrderCore.Db.Lookup.{find_order-update, find_order_key}
use profi_notifications.OrderCore.Db.Events.{events-insert}
use profi_notifications.OrderCore.Process.Spec.{apply_verdict, verdict_on, store_verdict}
use profi_notifications.OrderCore.Consistency.{
  row_of, requests, notices, Agrees, IsConsistent, Told,
}

-- The status of a row of a consistent table names a status of the enumeration.
status_of-Told :
    (status : Text) (n : ℕ)
    → Told status n
    → (s : OrderStatus) × (status_of status ≡ some s) × (status ≡ status_value s)
status_of-Told status n (inl h) =
    (assess_requested, rw (h.0) (status_of-status_value assess_requested), h.0)
status_of-Told status n (inr (inl h)) =
    (notify_requested, rw (h.0) (status_of-status_value notify_requested), h.0)
status_of-Told status n (inr (inr h)) =
    (no_notify, rw (h.0) (status_of-status_value no_notify), h.0)

-- Reading a stored order of consistent tables never raises.
pub read_order_found :
    (db : Db) (k : Text) (row : OrderRow)
    → IsConsistent db
    → row_of k db ≡ some row
    → (o : Order) × (read_order (row_of k db) ≡ ok (some o)) × (row.status ≡ status_value o.status)
unfolding read_order order_of
read_order_found db k row h e =
    let key = find_order_key (source_value profi) k db.orders e in
    let a : Agrees (some row) (requests k db) (notices k db) = rw e at (h.agrees k) in
    let (s, p, q) = status_of-Told row.status (notices k db) a.2 in
    (
      record {
        source = profi;
        external_id = row.external_id;
        status = s;
        suitability_score = row.suitability_score;
      },
      rw (e, key.0, source_of-source_value profi, p) refl,
      q,
    )

module _ (now : ℕ) (o : AssessmentOutcome) (db : Db) (k : Text) where
  abbrev updated : OrderStatus → Db
  updated status =
      (update_status now (source_value profi) o.order_id status (some o.suitability_score) db).1

  row_of-updated :
      (status : OrderStatus)
      → row_of k (updated status) ≡ (elim (row_of k db) [
        | none ↦ none
        | some row ↦
            some (
              if text_eq o.order_id k
              then assign now status (some o.suitability_score) row
              else row)
      ])
  unfolding update_status
  row_of-updated status =
      find_order-update now (source_value profi) o.order_id status (some o.suitability_score) k
        db.orders

  abbrev notice : Db
  notice = apply_verdict now o true db

  row_of-notice : row_of k notice ≡ row_of k (updated notify_requested)
  unfolding apply_verdict insert_event
  row_of-notice = ground arith

  pub row_of-applied :
      (b : Bool)
      → row_of k (apply_verdict now o b db) ≡ (elim (row_of k db) [
        | none ↦ none
        | some row ↦ some (
            if text_eq o.order_id k
            then assign now
                (if b then notify_requested else no_notify)
                (some o.suitability_score)
                row
            else row)
      ])
  unfolding apply_verdict
  row_of-applied true = row_of-notice ∙ row_of-updated notify_requested
  row_of-applied false = row_of-updated no_notify

  pub requests-notice : length o.order_id ≤ 128 → requests k notice ≡ requests k db
  unfolding apply_verdict update_status
  requests-notice h = ground (
    arith,
    events-insert now notify (event_key notify_kind profi o.order_id)
        (notification_payload o.notification) (updated notify_requested)
        (event_key assess_kind profi k) (length-event_key_notify profi o.order_id h),
    event_key-kinds' profi profi o.order_id k,
  )

  pub notices-notice :
      length o.order_id ≤ 128
      → notices k notice
        ≡ (if (notices o.order_id db == 0) && text_eq o.order_id k then 1 else notices k db)
  unfolding apply_verdict update_status
  notices-notice h = ground (
    arith,
    events-insert now notify (event_key notify_kind profi o.order_id)
        (notification_payload o.notification) (updated notify_requested)
        (event_key notify_kind profi k) (length-event_key_notify profi o.order_id h),
    event_key-injective notify_kind profi o.order_id k,
  )

  module _ (found : OrderRow) (at : row_of o.order_id db ≡ some found)
      (open_order : found.status ≡ status_value assess_requested) where
    id_of_found : found.external_id ≡ o.order_id
    id_of_found = (find_order_key (source_value profi) o.order_id db.orders at).1

    pub agreed :
        Agrees (row_of o.order_id db) (requests o.order_id db) (notices o.order_id db)
        → (length o.order_id ≤ 128) × (notices o.order_id db ≡ 0)
    unfolding status_value
    agreed h =
        let a : Agrees (some found) (requests o.order_id db) (notices o.order_id db) = rw at at h in
        ground (arith, id_of_found)

    applied-Agrees :
        (b : Bool)
        → Agrees (row_of o.order_id db) (requests o.order_id db) (notices o.order_id db)
        → Agrees (row_of k db) (requests k db) (notices k db)
        → Agrees
            (row_of k (apply_verdict now o b db))
            (requests k (apply_verdict now o b db))
            (notices k (apply_verdict now o b db))
    unfolding apply_verdict update_status assign
    applied-Agrees true ho hk =
        let (fit, fresh) = agreed ho in
        rw (row_of-notice, row_of-updated notify_requested, requests-notice fit, notices-notice fit)
          (ground (arith, at, text_eq_iff o.order_id k, fresh))
    applied-Agrees false ho hk =
        rw (row_of-updated no_notify) (ground (arith, at, text_eq_iff o.order_id k, agreed ho))

-- The branch that a verdict takes: an order that waits for it, or anything else.
pub data Branch (threshold now : ℕ) (o : AssessmentOutcome) (db : Db) : Type 0 where
  waiting :
      (row : OrderRow)
      → row_of o.order_id db ≡ some row
      → row.status ≡ status_value assess_requested
      → store_verdict threshold now o db
        ≡ apply_verdict now o (decide_notification o threshold).notify db
      → Branch threshold now o db
  ignored :
      (row : OrderRow)
      → row_of o.order_id db ≡ some row
      → row.status ≢ status_value assess_requested
      → store_verdict threshold now o db ≡ db
      → Branch threshold now o db
  unknown :
      row_of o.order_id db ≡ none
      → store_verdict threshold now o db ≡ db
      → Branch threshold now o db

can_apply_true : (s : OrderStatus) → can_apply_assessment s ≡ true → s ≡ assess_requested
unfolding can_apply_assessment
can_apply_true assess_requested h = refl
can_apply_true _ h = cc

can_apply_false :
    (s : OrderStatus)
    → can_apply_assessment s ≡ false
    → status_value s ≢ status_value assess_requested
unfolding can_apply_assessment
can_apply_false s h e = cc (status_value-injective s assess_requested e)

pub branch :
    (threshold now : ℕ) (o : AssessmentOutcome) (db : Db)
    → IsConsistent db
    → Branch threshold now o db
unfolding store_verdict verdict_on
branch threshold now o db h = elim (Option-cases (row_of o.order_id db)) [
  | inl e ↦ unknown e (rw e (unfold read_order in refl))
  | inr (row, e) ↦
      let (order, p, q) = read_order_found db o.order_id row h e in
      elim (Bool-cases (can_apply_assessment order.status)) [
        | inl t ↦
            waiting row e (q ∙ ap status_value (can_apply_true order.status t)) (rw (p, t) refl)
        | inr f ↦ ignored row e (λ w. can_apply_false order.status f (sym q ∙ w)) (rw (p, f) refl)
      ]
]

pub store_verdict-IsConsistent :
    (threshold now : ℕ) (o : AssessmentOutcome) (db : Db)
    → IsConsistent db
    → IsConsistent (store_verdict threshold now o db)
store_verdict-IsConsistent threshold now o db h = elim (branch threshold now o db h) [
  | waiting row e w p ↦ rw p (record {
    agrees = λ k.
        applied-Agrees now o db k row e w (decide_notification o threshold).notify
          (h.agrees o.order_id) (h.agrees k);
  })
  | ignored row e w p ↦ rw p h
  | unknown e p ↦ rw p h
]
