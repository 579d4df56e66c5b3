-- ===== src/OrderCore/Outbox.antt =====
-- The outbox as the relay needs it: rows told apart by their ids, with a destination that has a
-- transport, and marked as published only once the broker has their message.
use mathlib.Core.Path.{subst}
use profi_notifications.Prelude.{
  false, true, Bool, ◌≤◌, ◌∙◌, refl, sym, any, ap, inr, [], length, ◌∷◌, inl, leb, ◌+◌, ◌++◌, ◌⊎◌,
  text_eq, arith, some, ℕ, ◌≢◌, ◌≡◌, ◌<◌, List, Text, Bool-cases,
}
use profi_notifications.Prelude.Members.{In-append, Extends, In}
use profi_notifications.OrderCore.Db.{
  assess_kind, notify_kind, event_key, update_status, notify, has_key, assess_request,
  OutboxDestination, destination_value, Db, OutboxRow, insert_event, insert_order, outbox_row,
  published, pending,
}
use profi_notifications.OrderCore.Relay.{message_of}
use profi_notifications.OrderCore.Relay.Sent.{Delivered, Delivered-Extends}
use profi_notifications.OrderCore.Effects.{to_notify, to_assess, Message}
use profi_notifications.OrderCore.Dto.{IncomingOrder}
use profi_notifications.Prelude.Json.{Fields}
use profi_notifications.OrderCore.Ingest.Spec.{is_settled, store_order, store_orders}
use profi_notifications.OrderCore.Process.Spec.{store_verdict, apply_verdict}
use profi_notifications.OrderCore.Domain.{decide_notification, profi, AssessmentOutcome}
use profi_notifications.OrderCore.Consistency.{IsConsistent}
use profi_notifications.OrderCore.Consistency.Verdict.{unknown, ignored, waiting, branch}
use profi_notifications.OrderCore.Wire.{notification_payload, assess_request_payload}

pub record IsTracked (db : Db) (sent : List Message) : Type 0 where
  pub below : (r : OutboxRow) → In r db.outbox → r.id < db.next_id
  pub unique : (r r' : OutboxRow) → In r db.outbox → In r' db.outbox → r.id ≡ r'.id → r ≡ r'
  pub dispatched :
      (r : OutboxRow)
      → In r db.outbox
      → (m : Message) × (message_of r.destination r.payload ≡ some m)
  pub delivered :
      (r : OutboxRow)
      → In r db.outbox
      → r.status ≡ published
      → Delivered sent r.destination r.payload

pub IsTracked-Extends :
    (db : Db) (a b : List Message) → Extends a b → IsTracked db a → IsTracked db b
IsTracked-Extends db a b e t = record {
  below = t.below;
  unique = t.unique;
  dispatched = t.dispatched;
  delivered = λ r i p. Delivered-Extends a b r.destination r.payload e (t.delivered r i p);
}

message_of_destination :
    (d : OutboxDestination) (payload : Fields)
    → (m : Message) × (message_of (destination_value d) payload ≡ some m)
unfolding message_of destination_value text_eq
message_of_destination assess_request payload = (to_assess payload, refl)
message_of_destination notify payload = (to_notify payload, refl)

pending-ne-published : pending ≢ published
pending-ne-published = ground (arith)

module _ (db : Db) (sent : List Message) (row : OutboxRow) (t : IsTracked db sent)
    (fresh : row.id ≡ db.next_id) (waits : row.status ≡ pending)
    (known : (m : Message) × (message_of row.destination row.payload ≡ some m)) where
  abbrev added : Db
  added = record db { outbox = db.outbox ++ row ∷ []; next_id = db.next_id + 1 }

  In-added : (r : OutboxRow) → In r added.outbox → In r db.outbox ⊎ (r ≡ row)
  In-added r i = elim (In-append r db.outbox (row ∷ []) i) [
    | inl old ↦ inl old
    | inr (inl e) ↦ inr e
    | inr (inr no_more) ↦ absurd no_more
  ]

  added-below : (r : OutboxRow) → In r db.outbox ⊎ (r ≡ row) → r.id < db.next_id + 1
  added-below r (inl i) = omega (arith, t.below r i)
  added-below r (inr e) = rw e (omega (arith, fresh))

  added_unique :
      (r r' : OutboxRow)
      → In r db.outbox ⊎ (r ≡ row)
      → In r' db.outbox ⊎ (r' ≡ row)
      → r.id ≡ r'.id
      → r ≡ r'
  added_unique r r' (inl i) (inl j) q = t.unique r r' i j q
  added_unique r r' (inl i) (inr e) q =
      absurd (omega (arith, t.below r i, fresh, ap (λ (x : OutboxRow). x.id) e))
  added_unique r r' (inr e) (inl j) q =
      absurd (omega (arith, t.below r' j, fresh, ap (λ (x : OutboxRow). x.id) e))
  added_unique r r' (inr e) (inr e') q = e ∙ sym e'

  added-dispatched :
      (r : OutboxRow)
      → In r db.outbox ⊎ (r ≡ row)
      → (m : Message) × (message_of r.destination r.payload ≡ some m)
  added-dispatched r (inl i) = t.dispatched r i
  added-dispatched r (inr e) = rw e known

  added-Delivered :
      (r : OutboxRow)
      → In r db.outbox ⊎ (r ≡ row)
      → r.status ≡ published
      → Delivered sent r.destination r.payload
  added-Delivered r (inl i) p = t.delivered r i p
  added-Delivered r (inr e) p =
      absurd (pending-ne-published (sym waits ∙ sym (ap (λ (x : OutboxRow). x.status) e) ∙ p))

  added-IsTracked : IsTracked added sent
  added-IsTracked = record {
    below = λ r i. added-below r (In-added r i);
    unique = λ r r' i j. added_unique r r' (In-added r i) (In-added r' j);
    dispatched = λ r i. added-dispatched r (In-added r i);
    delivered = λ r i. added-Delivered r (In-added r i);
  }

pub insert_event-IsTracked :
    (now : ℕ) (d : OutboxDestination) (key : Text) (payload : Fields) (db : Db)
    (sent : List Message)
    → IsTracked db sent
    → IsTracked (insert_event now d key payload db).1 sent
unfolding insert_event outbox_row
insert_event-IsTracked now d key payload db sent t = elim (Bool-cases (leb (length key) 200)) [
  | inr long ↦ rw (long, insert_event) t
  | inl fits ↦ elim (Bool-cases (any (has_key key) db.outbox)) [
    | inl old ↦ rw (fits, old, insert_event) t
    | inr new ↦
        rw (fits, new, insert_event)
          (added-IsTracked db sent (outbox_row db.next_id now d key payload) t refl refl
            (message_of_destination d payload))
  ]
]

-- The orders do not matter, nor how far the ids have come.
same_outbox-IsTracked :
    (db db' : Db) (sent : List Message)
    → db'.outbox ≡ db.outbox
    → db.next_id ≤ db'.next_id
    → IsTracked db sent
    → IsTracked db' sent
same_outbox-IsTracked db db' sent same grown t =
    let back : (r : OutboxRow) → In r db'.outbox → In r db.outbox =
      λ r i. subst (λ (l : List OutboxRow). In r l) same i in
    record {
      below = λ r i. omega (arith, t.below r (back r i), grown);
      unique = λ r r' i j. t.unique r r' (back r i) (back r' j);
      dispatched = λ r i. t.dispatched r (back r i);
      delivered = λ r i. t.delivered r (back r i);
    }

pub insert_order_outbox :
    (now : ℕ) (o : IncomingOrder) (db : Db)
    → ((insert_order now o db).1.outbox ≡ db.outbox)
      × (db.next_id ≤ (insert_order now o db).1.next_id)
unfolding insert_order
insert_order_outbox now o db = ground arith

pub store_order-IsTracked :
    (now : ℕ) (o : IncomingOrder) (db : Db) (sent : List Message)
    → IsTracked db sent
    → IsTracked (store_order now o db) sent
unfolding store_order
store_order-IsTracked now o db sent t = elim (Bool-cases (is_settled o db)) [
  | inl old ↦ rw (old, store_order) t
  | inr new ↦
      let (same, grown) = insert_order_outbox now o db in
      rw (new, store_order)
        (insert_event-IsTracked now assess_request (event_key assess_kind o.source o.external_id)
          (assess_request_payload o) (insert_order now o db).1 sent
          (same_outbox-IsTracked db (insert_order now o db).1 sent same grown t))
]

pub store_orders-IsTracked :
    (now : ℕ) (batch : List IncomingOrder) (db : Db) (sent : List Message)
    → IsTracked db sent
    → IsTracked (store_orders now batch db) sent
unfolding store_orders
store_orders-IsTracked now [] db sent t = t
store_orders-IsTracked now (o ∷ batch) db sent t =
    store_orders-IsTracked now batch (store_order now o db) sent
      (store_order-IsTracked now o db sent t)

apply_verdict-IsTracked :
    (now : ℕ) (o : AssessmentOutcome) (b : Bool) (db : Db) (sent : List Message)
    → IsTracked db sent
    → IsTracked (apply_verdict now o b db) sent
unfolding apply_verdict update_status
apply_verdict-IsTracked now o true db sent t =
    insert_event-IsTracked now notify (event_key notify_kind profi o.order_id)
      (notification_payload o.notification) _ sent
      (same_outbox-IsTracked db _ sent refl (omega arith) t)
apply_verdict-IsTracked now o false db sent t = same_outbox-IsTracked db _ sent refl (omega arith) t

pub store_verdict-IsTracked :
    (threshold now : ℕ) (o : AssessmentOutcome) (db : Db) (sent : List Message)
    → IsConsistent db
    → IsTracked db sent
    → IsTracked (store_verdict threshold now o db) sent
store_verdict-IsTracked threshold now o db sent c t = elim (branch threshold now o db c) [
  | waiting row e w p ↦
      rw p (apply_verdict-IsTracked now o (decide_notification o threshold).notify db sent t)
  | ignored row e w p ↦ rw p t
  | unknown e p ↦ rw p t
]
