-- ===== src/OrderCore/System/Sound.antt =====
-- What holds in every state that order-core-service can reach.
use profi_notifications.OrderCore.Relay.Poll.{poll_once, poll_keeps}
use profi_notifications.Prelude.{[], append-nil, sym, ◌∙◌}
use profi_notifications.OrderCore.Guard.{Result-cases}
use profi_notifications.OrderCore.Wire.{
  to_assessment_outcome, AssessmentResultMessage, to_incoming_orders,
}
use profi_notifications.OrderCore.Guard.Accounts.{guard_inv, Letters-Extends}
use profi_notifications.OrderCore.Relay.Tracks.{mark_rows-IsTracked}
use profi_notifications.OrderCore.Relay.Marks.{mark_rows-IsConsistent}
use profi_notifications.OrderCore.Relay.Atomic.{round, ids, run_once-Relayed}
use profi_notifications.OrderCore.Consistency.Verdict.{store_verdict-IsConsistent}
use profi_notifications.OrderCore.Consistency.Ingest.{store_orders-IsConsistent}
use profi_notifications.OrderCore.Effects.Atomic.{IsAtomic}
use profi_notifications.OrderCore.Outbox.{
  store_verdict-IsTracked, store_orders-IsTracked, IsTracked, IsTracked-Extends,
}
use profi_notifications.OrderCore.Relay.{run_once}
use profi_notifications.OrderCore.Process.Spec.{store_verdict}
use profi_notifications.OrderCore.Ingest.Spec.{store_orders}
use profi_notifications.Prelude.Members.{Extends}
use profi_notifications.OrderCore.Db.{Db}
use profi_notifications.OrderCore.Effects.{World}
use profi_notifications.OrderCore.Dto.{err, ok, Result, IncomingOrder}
use profi_notifications.OrderCore.Domain.{AssessmentOutcome}
use profi_notifications.OrderCore.Subscribers.{
  handle_converted, handle_batch, on_assess_results, handle_verdict, on_parse_results,
}
use profi_notifications.OrderCore.Consistency.{IsConsistent, empty_db-IsConsistent}
use profi_notifications.Prelude.{inr, inl, Bool, ◌≡◌, ℕ, List}
use profi_notifications.OrderCore.System.{
  [], AssessmentResultMessage, Db, handle_verdict, on_parse_results, World, Bool, Wiring, Step,
  batch_delivered, verdict_delivered, relayed, environment, Reach, here, next, fresh_world,
}
use profi_notifications.OrderCore.Ingest.Atomic.{ingest-IsAtomic, sent-ingest}
use profi_notifications.OrderCore.Process.Atomic.{process-IsAtomic, sent-process}
use profi_notifications.OrderCore.Ingest
use profi_notifications.OrderCore.Process

pub record IsSound (w : World Db) : Type 0 where
  pub consistent : IsConsistent w.committed
  pub tracked : IsTracked w.committed w.sent

-- Soundness looks at the committed tables and at what was sent.
pub same-IsSound :
    (w w' : World Db) → w'.committed ≡ w.committed → Extends w.sent w'.sent → IsSound w → IsSound w'
same-IsSound w w' c s h = record {
  consistent = rw c h.consistent;
  tracked = rw c (IsTracked-Extends w.committed w.sent w'.sent s h.tracked);
}

-- a handler that stored `new` or nothing, and sent nothing
stored-IsSound :
    (w : World Db) (new : Db) (out : Result Unit × World Db)
    → IsAtomic w.committed new out
    → out.1.sent ≡ w.sent
    → IsSound w
    → IsConsistent new × IsTracked new w.sent
    → IsSound out.1
stored-IsSound w new (ok u, w') a s h (c, t) = record { consistent = rw a c; tracked = rw (a, s) t }
stored-IsSound w new (err e, w') (inl a) s h n = record {
  consistent = rw a h.consistent;
  tracked = rw (a, s) h.tracked;
}
stored-IsSound w new (err e, w') (inr a) s h (c, t) = record {
  consistent = rw a c;
  tracked = rw (a, s) t;
}

pub ingest-IsSound :
    (now : ℕ) (batch : List IncomingOrder) (w : World Db)
    → IsSound w
    → IsSound (Ingest.handle now batch w).1
ingest-IsSound now batch w h =
    stored-IsSound w (store_orders now batch w.committed) (Ingest.handle now batch w)
      (ingest-IsAtomic now batch w) (sent-ingest now batch w) h
      (
        store_orders-IsConsistent now batch w.committed h.consistent,
        store_orders-IsTracked now batch w.committed w.sent h.tracked,
      )

pub process-IsSound :
    (threshold now : ℕ) (o : AssessmentOutcome) (w : World Db)
    → IsSound w
    → IsSound (Process.handle threshold now o w).1
process-IsSound threshold now o w h =
    stored-IsSound w (store_verdict threshold now o w.committed) (Process.handle threshold now o w)
      (process-IsAtomic threshold now o w) (sent-process threshold now o w) h
      (
        store_verdict-IsConsistent threshold now o w.committed h.consistent,
        store_verdict-IsTracked threshold now o w.committed w.sent h.consistent h.tracked,
      )

verdict-IsSound :
    (threshold now : ℕ) (message : AssessmentResultMessage) (w : World Db)
    → IsSound w
    → IsSound (handle_verdict threshold now message w).1
unfolding handle_verdict handle_converted
verdict-IsSound threshold now message w h = elim (Result-cases (to_assessment_outcome message)) [
  | inl (o, e) ↦ rw e (process-IsSound threshold now o w h)
  | inr (x, e) ↦ rw e h
]

pub relay-IsSound :
    (locked : ℕ → Bool) (limit now : ℕ) (w : World Db)
    → IsSound w
    → IsSound (run_once locked limit now w).1
relay-IsSound locked limit now w h =
    let r = run_once-Relayed locked limit now w in
    let w' = (run_once locked limit now w).1 in
    let t = IsTracked-Extends w.committed w.sent w'.sent r.extends h.tracked in
    elim r.fate [
      | inl e ↦ record { consistent = rw e h.consistent; tracked = rw e t }
      | inr (e, d) ↦ record {
        consistent = rw e (
            mark_rows-IsConsistent now (ids (round locked limit now w.committed)) w.committed
              h.consistent);
        tracked = rw e (mark_rows-IsTracked locked limit now w.committed w'.sent t d);
      }
    ]

pub poll-IsSound :
    (locked : ℕ → Bool) (limit now : ℕ) (w : World Db)
    → IsSound w
    → IsSound (poll_once locked limit now w).1
poll-IsSound locked limit now w h =
    let u = (run_once locked limit now w).1 in
    let (c, s) = poll_keeps locked limit now w in
    same-IsSound u (poll_once locked limit now w).1 c ([], s ∙ sym (append-nil u.sent))
      (relay-IsSound locked limit now w h)

Step-IsSound : (c : Wiring) {w w' : World Db} → Step c w w' → IsSound w → IsSound w'
unfolding on_parse_results on_assess_results handle_batch
Step-IsSound c (batch_delivered now raw w) h =
    guard_inv c.parse_queue c.parse_batch (handle_batch now) raw IsSound
      (λ v v' e l. same-IsSound v v' e (Letters-Extends raw v.sent v'.sent l))
      (λ message p v k. ingest-IsSound now (to_incoming_orders message) v k) w h
Step-IsSound c (verdict_delivered now raw w) h =
    guard_inv c.assess_result_queue c.parse_verdict (handle_verdict c.notify_threshold now) raw
      IsSound (λ v v' e l. same-IsSound v v' e (Letters-Extends raw v.sent v'.sent l))
      (λ message p v k. verdict-IsSound c.notify_threshold now message v k) w h
Step-IsSound c (relayed locked now w) h = poll-IsSound locked c.batch_size now w h
Step-IsSound c (environment answers confirms w) h = record {
  consistent = h.consistent;
  tracked = h.tracked;
}

fresh_world-IsSound : IsSound fresh_world
fresh_world-IsSound = record {
  consistent = empty_db-IsConsistent;
  tracked = record {
    below = λ r i. absurd i;
    unique = λ r r' i. absurd i;
    dispatched = λ r i. absurd i;
    delivered = λ r i. absurd i;
  };
}

Reach-IsSound_from : (c : Wiring) {w w' : World Db} → IsSound w → Reach c w w' → IsSound w'
Reach-IsSound_from c h here = h
Reach-IsSound_from c h (next r s) = Step-IsSound c s (Reach-IsSound_from c h r)

-- In every state that the service can reach from empty tables, through any sequence of
-- deliveries of raw messages, turns of the relay and changes of what the database and the
-- broker will answer: an order that is stored has exactly one request for an assessment, and
-- exactly one notification if its status is notify_requested, else none; an id without an order
-- has no event; the status is never failed; no two events share an id; every event has a
-- destination that the publisher knows; and the broker has taken the message of every event
-- that is marked as published.
pub Reach-IsSound : (c : Wiring) (w : World Db) → Reach c fresh_world w → IsSound w
Reach-IsSound c w r = Reach-IsSound_from c fresh_world-IsSound r
