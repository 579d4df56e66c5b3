-- ===== src/OrderCore/System/Decided.antt =====
-- What becomes of a decided order while order-core-service handles its messages one after the
-- other, each of them whole.
use profi_notifications.OrderCore.Relay.Poll.{poll_keeps}
use profi_notifications.OrderCore.System.Sound.{poll-IsSound}
use profi_notifications.OrderCore.Guard.Accounts.{guard_inv, Letters-Extends}
use profi_notifications.OrderCore.Relay.Atomic.{run_once-Relayed}
use profi_notifications.OrderCore.Guard.{Result-cases}
use profi_notifications.OrderCore.Wire.{
  to_incoming_orders, to_assessment_outcome, AssessmentResultMessage,
}
use profi_notifications.Prelude.Members.{Extends-refl, Extends}
use profi_notifications.OrderCore.Effects.Atomic.{IsAtomic}
use profi_notifications.OrderCore.System.{
  environment, relayed, verdict_delivered, batch_delivered, Step, here, next,
  AssessmentResultMessage, fresh_world, Bool, Reach, Wiring,
}
use profi_notifications.OrderCore.Relay.{run_once, mark_rows}
use profi_notifications.OrderCore.Subscribers.{
  handle_batch, handle_converted, on_assess_results, handle_verdict, on_parse_results,
}
use profi_notifications.OrderCore.Effects.{World}
use profi_notifications.OrderCore.Consistency.Ingest.{row_of-stored}
use profi_notifications.OrderCore.Consistency.Verdict.{
  unknown, ignored, row_of-applied, waiting, branch,
}
use profi_notifications.OrderCore.Process.Spec.{store_verdict}
use profi_notifications.OrderCore.Dto.{err, ok, Result, IncomingOrder}
use profi_notifications.OrderCore.Domain.{
  decide_notification, AssessmentOutcome, assess_requested, status_value,
}
use profi_notifications.OrderCore.Consistency.{IsConsistent, row_of}
use profi_notifications.OrderCore.Ingest.Spec.{is_settled, store_order, store_orders}
use profi_notifications.OrderCore.Db.{find_order, Db, OrderRow}
use profi_notifications.OrderCore.Ingest.Atomic.{ingest-IsAtomic}
use profi_notifications.OrderCore.Process.Atomic.{process-IsAtomic}
use profi_notifications.OrderCore.System.Sound.{
  Reach-IsSound, IsSound, same-IsSound, ingest-IsSound, process-IsSound,
}
use profi_notifications.OrderCore.Ingest
use profi_notifications.OrderCore.Process
use profi_notifications.Prelude.{
  Bool, refl, text_eq_iff, arith, inr, inl, [], ◌∷◌, Bool-cases, some, List, ℕ, ◌≢◌, Text, ◌≡◌,
}

module _ (k : Text) (row : OrderRow) where
  abbrev pub Holds : Db → Type 0
  Holds db = row_of k db ≡ some row

  store_order-Holds :
      (now : ℕ) (o : IncomingOrder) (db : Db) → Holds db → Holds (store_order now o db)
  unfolding store_order find_order
  store_order-Holds now o db h = elim (Bool-cases (is_settled o db)) [
    | inl old ↦ rw (old, store_order) h
    | inr new ↦ rw (row_of-stored now o db k new, h) refl
  ]

  pub store_orders-Holds :
      (now : ℕ) (batch : List IncomingOrder) (db : Db)
      → Holds db
      → Holds (store_orders now batch db)
  unfolding store_orders
  store_orders-Holds now [] db h = h
  store_orders-Holds now (o ∷ batch) db h =
      store_orders-Holds now batch (store_order now o db) (store_order-Holds now o db h)

  module _ (decided : row.status ≢ status_value assess_requested) where
    store_verdict-Holds :
        (threshold now : ℕ) (o : AssessmentOutcome) (db : Db)
        → IsConsistent db
        → Holds db
        → Holds (store_verdict threshold now o db)
    store_verdict-Holds threshold now o db c h = elim (branch threshold now o db c) [
      | waiting found f s p ↦
          rw (p, row_of-applied now o db k (decide_notification o threshold).notify, h)
            (ground (arith, text_eq_iff o.order_id k, f, s, h, decided))
      | ignored found f s p ↦ rw p h
      | unknown f p ↦ rw p h
    ]

    -- A handler that stored `new` or nothing.
    atomic-Holds :
        (old new : Db) (out : Result Unit × World Db)
        → IsAtomic old new out
        → Holds old
        → Holds new
        → Holds out.1.committed
    atomic-Holds old new (ok u, w) a h n = rw a n
    atomic-Holds old new (err e, w) (inl a) h n = rw a h
    atomic-Holds old new (err e, w) (inr a) h n = rw a n

    abbrev Kept : World Db → Type 0
    Kept w = IsSound w × Holds w.committed

    same-Kept :
        (w w' : World Db) → w'.committed ≡ w.committed → Extends w.sent w'.sent → Kept w → Kept w'
    same-Kept w w' c s (h, a) = (same-IsSound w w' c s h, rw c a)

    ingest-Kept :
        (now : ℕ) (batch : List IncomingOrder) (w : World Db)
        → Kept w
        → Kept (Ingest.handle now batch w).1
    ingest-Kept now batch w (h, a) = (
      ingest-IsSound now batch w h,
      atomic-Holds w.committed (store_orders now batch w.committed) (Ingest.handle now batch w)
          (ingest-IsAtomic now batch w) a (store_orders-Holds now batch w.committed a),
    )

    process-Kept :
        (threshold now : ℕ) (o : AssessmentOutcome) (w : World Db)
        → Kept w
        → Kept (Process.handle threshold now o w).1
    process-Kept threshold now o w (h, a) = (
      process-IsSound threshold now o w h,
      atomic-Holds w.committed (store_verdict threshold now o w.committed)
          (Process.handle threshold now o w) (process-IsAtomic threshold now o w) a
          (store_verdict-Holds threshold now o w.committed h.consistent a),
    )

    verdict-Kept :
        (threshold now : ℕ) (message : AssessmentResultMessage) (w : World Db)
        → Kept w
        → Kept (handle_verdict threshold now message w).1
    unfolding handle_verdict handle_converted
    verdict-Kept threshold now message w h = elim (Result-cases (to_assessment_outcome message)) [
      | inl (o, e) ↦ rw e (process-Kept threshold now o w h)
      | inr (x, e) ↦ rw e h
    ]

    relay-Holds :
        (locked : ℕ → Bool) (limit now : ℕ) (w : World Db)
        → Holds w.committed
        → Holds (run_once locked limit now w).1.committed
    unfolding mark_rows
    relay-Holds locked limit now w h = elim (run_once-Relayed locked limit now w).fate [
      | inl e ↦ rw e h
      | inr (e, d) ↦ rw e h
    ]

    Step-Kept : (c : Wiring) {w w' : World Db} → Step c w w' → Kept w → Kept w'
    unfolding on_parse_results on_assess_results handle_batch
    Step-Kept c (batch_delivered now raw w) h =
        guard_inv c.parse_queue c.parse_batch (handle_batch now) raw Kept
          (λ v v' e l. same-Kept v v' e (Letters-Extends raw v.sent v'.sent l))
          (λ message p v k. ingest-Kept now (to_incoming_orders message) v k) w h
    Step-Kept c (verdict_delivered now raw w) h =
        guard_inv c.assess_result_queue c.parse_verdict (handle_verdict c.notify_threshold now) raw
          Kept (λ v v' e l. same-Kept v v' e (Letters-Extends raw v.sent v'.sent l))
          (λ message p v k. verdict-Kept c.notify_threshold now message v k) w h
    Step-Kept c (relayed locked now w) (h, a) = (
      poll-IsSound locked c.batch_size now w h,
      rw ((poll_keeps locked c.batch_size now w).0) (relay-Holds locked c.batch_size now w a),
    )
    Step-Kept c (environment answers confirms w) (h, a) = (
      same-IsSound w (record w { answers = answers; confirms = confirms }) refl
          (Extends-refl w.sent) h,
      a,
    )

    Reach-Kept : (c : Wiring) {w w' : World Db} → Kept w → Reach c w w' → Kept w'
    Reach-Kept c h here = h
    Reach-Kept c h (next r s) = Step-Kept c s (Reach-Kept c h r)

-- While batches, verdicts and rounds of the relay are handled whole, one after the other: once the row
-- of an order has another status than assess_requested, in a state that the service can reach from
-- empty tables, it is the same row, with its status, score and all other columns, in every state
-- that is reached from there.
pub decided_forever :
    (c : Wiring) (w w' : World Db) (k : Text) (row : OrderRow)
    → Reach c fresh_world w
    → row_of k w.committed ≡ some row
    → row.status ≢ status_value assess_requested
    → Reach c w w'
    → row_of k w'.committed ≡ some row
decided_forever c w w' k row r h decided later =
    (Reach-Kept k row decided c (Reach-IsSound c w r, h) later).1
