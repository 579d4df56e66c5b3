-- ===== src/OrderCore/Requests.antt =====
-- The requests for assessments in the outbox: a predicate on their payloads that new ones have stays
-- true of all.
use profi_notifications.OrderCore.Outbox.{insert_order_outbox}
use mathlib.Core.Path.{sym, ap, subst}
use profi_notifications.Prelude.{
  text_eq_iff, arith, ◌∙◌, ◌≢◌, sym, refl, ap, text_eq, ℕ, Bool, true, false, Text, List, [], ◌∷◌,
  ◌≡◌, ◌⊎◌, inl, inr, some, none, Option, Bool-cases, leb, length, any,
}
use profi_notifications.Prelude.Json.{Fields}
use profi_notifications.Prelude.Members.{In, In-append, In-map}
use profi_notifications.OrderCore.Domain.{
  notify_requested, source_value, profi, AssessmentOutcome, Order, can_apply_assessment,
  decide_notification,
}
use profi_notifications.OrderCore.Dto.{IncomingOrder, Result, ok, err}
use profi_notifications.OrderCore.Db.{
  notify_kind, event_key, update_status, Db, OutboxRow, OutboxDestination, assess_request, notify,
  destination_value, insert_event, outbox_row, insert_order, has_key,
}
use profi_notifications.OrderCore.Effects.{to_assess}
use profi_notifications.OrderCore.Wire.{notification_payload, assess_request_payload}
use profi_notifications.OrderCore.Ingest.Spec.{store_order, store_orders, is_settled, queue_request}
use profi_notifications.OrderCore.Process.Spec.{verdict_on, apply_verdict}
use profi_notifications.OrderCore.Relay.{message_of, mark_row, mark_rows}
use profi_notifications.OrderCore.Relay.Tracks.{mark_row_keeps}

insert_event-rows :
    (now : ℕ) (d : OutboxDestination) (key : Text) (payload : Fields) (db : Db) (r : OutboxRow)
    → In r (insert_event now d key payload db).1.outbox
    → In r db.outbox ⊎ ((r.destination ≡ destination_value d) × (r.payload ≡ payload))
unfolding insert_event outbox_row
insert_event-rows now d key payload db r i = elim (Bool-cases (leb (length key) 200)) [
  | inr long ↦ inl (rw (long, insert_event) at i)
  | inl fits ↦ elim (Bool-cases (any (has_key key) db.outbox)) [
    | inl old ↦ inl (rw (fits, old, insert_event) at i)
    | inr new ↦ elim (In-append r db.outbox _ (rw (fits, new, insert_event) at i)) [
      | inl j ↦ inl j
      | inr (inl e) ↦
          inr (ap (λ (x : OutboxRow). x.destination) e, ap (λ (x : OutboxRow). x.payload) e)
      | inr (inr no_more) ↦ absurd no_more
    ]
  ]
]

destinations_apart : destination_value notify ≢ destination_value assess_request
unfolding destination_value
destinations_apart = ground arith

-- Only the destination of a request has the transport to llm.
pub asks_of :
    (destination : Text) (payload asked : Fields)
    → message_of destination payload ≡ some (to_assess asked)
    → (destination ≡ destination_value assess_request) × (payload ≡ asked)
unfolding message_of
asks_of destination payload asked h =
    elim (Bool-cases (text_eq destination (destination_value assess_request))) [
      | inl e ↦
          ((text_eq_iff destination (destination_value assess_request)).0 e, ground (arith, h, e))
      | inr e ↦ elim (Bool-cases (text_eq destination (destination_value notify))) [
        | inl f ↦ absurd (ground (arith, h, e, f))
        | inr f ↦ absurd (ground (arith, h, e, f))
      ]
    ]

module _ (Asked : Fields → Type 0) where
  -- Every request of the outbox is as it should be.
  abbrev pub AllAsked : Db → Type 0
  AllAsked db =
      (r : OutboxRow)
      → In r db.outbox
      → r.destination ≡ destination_value assess_request
      → Asked r.payload

  insert_request-AllAsked :
      (now : ℕ) (key : Text) (payload : Fields) (db : Db)
      → Asked payload
      → AllAsked db
      → AllAsked (insert_event now assess_request key payload db).1
  insert_request-AllAsked now key payload db p a r i e =
      elim (insert_event-rows now assess_request key payload db r i) [
        | inl j ↦ a r j e
        | inr (_, q) ↦ subst Asked (sym q) p
      ]

  insert_notice-AllAsked :
      (now : ℕ) (key : Text) (payload : Fields) (db : Db)
      → AllAsked db
      → AllAsked (insert_event now notify key payload db).1
  insert_notice-AllAsked now key payload db a r i e =
      elim (insert_event-rows now notify key payload db r i) [
        | inl j ↦ a r j e
        | inr (d, _) ↦ absurd (destinations_apart (sym d ∙ e))
      ]

  same_outbox-AllAsked : (db db' : Db) → db'.outbox ≡ db.outbox → AllAsked db → AllAsked db'
  same_outbox-AllAsked db db' same a r i = a r (subst (λ (l : List OutboxRow). In r l) same i)

  store_order-AllAsked :
      (now : ℕ) (o : IncomingOrder) (db : Db)
      → Asked (assess_request_payload o)
      → AllAsked db
      → AllAsked (store_order now o db)
  unfolding store_order queue_request
  store_order-AllAsked now o db p a = elim (Bool-cases (is_settled o db)) [
    | inl old ↦ rw (old, store_order) a
    | inr new ↦
        rw (new, store_order)
          (insert_request-AllAsked now _ (assess_request_payload o) (insert_order now o db).1 p
            (same_outbox-AllAsked db (insert_order now o db).1 (insert_order_outbox now o db).0 a))
  ]

  pub store_orders-AllAsked :
      (now : ℕ) (batch : List IncomingOrder) (db : Db)
      → ((o : IncomingOrder) → In o batch → Asked (assess_request_payload o))
      → AllAsked db
      → AllAsked (store_orders now batch db)
  unfolding store_orders
  store_orders-AllAsked now [] db p a = a
  store_orders-AllAsked now (o ∷ batch) db p a =
      store_orders-AllAsked now batch (store_order now o db) (λ x i. p x (inr i))
        (store_order-AllAsked now o db (p o (inl refl)) a)

  apply_verdict-AllAsked :
      (now : ℕ) (o : AssessmentOutcome) (b : Bool) (db : Db)
      → AllAsked db
      → AllAsked (apply_verdict now o b db)
  unfolding apply_verdict update_status
  apply_verdict-AllAsked now o true db a =
      insert_notice-AllAsked now (event_key notify_kind profi o.order_id)
        (notification_payload o.notification)
        (update_status now (source_value profi) o.order_id notify_requested
          (some o.suitability_score) db).1
        a
  apply_verdict-AllAsked now o false db a = a

  pub verdict_on-AllAsked :
      (threshold now : ℕ) (o : AssessmentOutcome) (r : Result (Option Order)) (db : Db)
      → AllAsked db
      → AllAsked (verdict_on threshold now o r db)
  unfolding verdict_on
  verdict_on-AllAsked threshold now o (ok (some order)) db a =
      elim (Bool-cases (can_apply_assessment order.status)) [
        | inl e ↦ rw e (apply_verdict-AllAsked now o (decide_notification o threshold).notify db a)
        | inr e ↦ rw e a
      ]
  verdict_on-AllAsked threshold now o (ok none) db a = a
  verdict_on-AllAsked threshold now o (err e) db a = a

  pub mark_rows-AllAsked :
      (now : ℕ) (ids : List ℕ) (db : Db) → AllAsked db → AllAsked (mark_rows now ids db)
  unfolding mark_rows
  mark_rows-AllAsked now ids db a r i e =
      let (x, j, q) = In-map (mark_row now ids) r db.outbox i in
      let (_, d, p) = mark_row_keeps now ids x in
      subst Asked (sym p ∙ sym (ap (λ (y : OutboxRow). y.payload) q))
        (a x j (sym d ∙ sym (ap (λ (y : OutboxRow). y.destination) q) ∙ e))
