-- ===== src/OrderCore/System/Requests.antt =====
-- What order-core-service asks llm for.
use profi_notifications.OrderCore.Relay.Origins.{run_once-From}
use profi_notifications.OrderCore.Relay.Atomic.{round, ids, run_once-Relayed}
use profi_notifications.OrderCore.Guard.{Result-cases, valid}
use profi_notifications.OrderCore.Process.Atomic.{sent-process, process-IsAtomic}
use profi_notifications.OrderCore.Guard.Accounts.{Letters, guard_inv}
use profi_notifications.OrderCore.Relay.Poll.{poll_keeps, poll_once}
use profi_notifications.OrderCore.Ingest.Atomic.{sent-ingest, ingest-IsAtomic}
use profi_notifications.OrderCore.Effects.Atomic.{IsAtomic}
use profi_notifications.OrderCore.Ingest
use profi_notifications.OrderCore.Process
use profi_notifications.OrderCore.Subscribers.{
  handle_batch, handle_verdict, handle_converted, on_parse_results, on_assess_results,
}
use profi_notifications.OrderCore.Effects.{World}
use profi_notifications.OrderCore.System.{
  ParseResultMessage, AssessmentResultMessage, poll_once, Wiring, Step, Reach, fresh_world, here,
  next, batch_delivered, verdict_delivered, relayed, environment,
}
use profi_notifications.OrderCore.Requests.{
  AllAsked, asks_of, store_orders-AllAsked, verdict_on-AllAsked, mark_rows-AllAsked,
}
use mathlib.Core.Path.{sym, ap, subst}
use profi_notifications.Prelude.{sym, ap, ℕ, Bool, List, ◌≡◌, inl, inr}
use profi_notifications.Prelude.Json.{Fields}
use profi_notifications.Prelude.Members.{In, In-append, In-map}
use profi_notifications.OrderCore.Domain.{source_value, profi, AssessmentOutcome}
use profi_notifications.OrderCore.Dto.{IncomingOrder, Result, ok, err}
use profi_notifications.OrderCore.Db.{find_order, read_order, Db}
use profi_notifications.OrderCore.Effects.{to_assess}
use profi_notifications.OrderCore.Wire.{
  to_assessment_outcome, to_incoming_order, OrderMessage, to_incoming_orders,
  assess_request_payload,
}
use profi_notifications.OrderCore.Ingest.Spec.{store_orders}
use profi_notifications.OrderCore.Process.Spec.{store_verdict}
use profi_notifications.OrderCore.Relay.{run_once}

module _ (Asked : Fields → Type 0) where
  -- What the invariant says of a state: the requests that wait, and those that were sent.
  pub record IsAsked (w : World Db) : Type 0 where
    pub queued : AllAsked Asked w.committed
    pub sent : (payload : Fields) → In (to_assess payload) w.sent → Asked payload

  -- a handler that stored `new` or nothing, and sent nothing
  stored-IsAsked :
      (w : World Db) (new : Db) (out : Result Unit × World Db)
      → IsAtomic w.committed new out
      → out.1.sent ≡ w.sent
      → AllAsked Asked new
      → IsAsked w
      → IsAsked out.1
  stored-IsAsked w new out a s n h = record {
    queued = atomic_cases w new out a n h.queued;
    sent = λ payload i. h.sent payload (subst (In (to_assess payload)) s i);
  }
    where
      atomic_cases :
          (w : World Db) (new : Db) (out : Result Unit × World Db)
          → IsAtomic w.committed new out
          → AllAsked Asked new
          → AllAsked Asked w.committed
          → AllAsked Asked out.1.committed
      atomic_cases w new (ok u, w') a n h = subst (AllAsked Asked) (sym a) n
      atomic_cases w new (err e, w') (inl a) n h = subst (AllAsked Asked) (sym a) h
      atomic_cases w new (err e, w') (inr a) n h = subst (AllAsked Asked) (sym a) n

  ingest-IsAsked :
      (now : ℕ) (batch : List IncomingOrder) (w : World Db)
      → ((o : IncomingOrder) → In o batch → Asked (assess_request_payload o))
      → IsAsked w
      → IsAsked (Ingest.handle now batch w).1
  ingest-IsAsked now batch w p h =
      stored-IsAsked w (store_orders now batch w.committed) (Ingest.handle now batch w)
        (ingest-IsAtomic now batch w) (sent-ingest now batch w)
        (store_orders-AllAsked Asked now batch w.committed p h.queued) h

  process-IsAsked :
      (threshold now : ℕ) (o : AssessmentOutcome) (w : World Db)
      → IsAsked w
      → IsAsked (Process.handle threshold now o w).1
  unfolding store_verdict
  process-IsAsked threshold now o w h =
      stored-IsAsked w (store_verdict threshold now o w.committed)
        (Process.handle threshold now o w) (process-IsAtomic threshold now o w)
        (sent-process threshold now o w)
        (verdict_on-AllAsked Asked threshold now o
          (read_order (find_order (source_value profi) o.order_id w.committed.orders)) w.committed
          h.queued)
        h

  verdict-IsAsked :
      (threshold now : ℕ) (message : AssessmentResultMessage) (w : World Db)
      → IsAsked w
      → IsAsked (handle_verdict threshold now message w).1
  unfolding handle_verdict handle_converted
  verdict-IsAsked threshold now message w h = elim (Result-cases (to_assessment_outcome message)) [
    | inl (o, e) ↦ rw e (process-IsAsked threshold now o w h)
    | inr (x, e) ↦ rw e h
  ]

  relay-IsAsked :
      (locked : ℕ → Bool) (limit now : ℕ) (w : World Db)
      → IsAsked w
      → IsAsked (run_once locked limit now w).1
  relay-IsAsked locked limit now w h = record {
    queued = elim (run_once-Relayed locked limit now w).fate [
      | inl e ↦ subst (AllAsked Asked) (sym e) h.queued
      | inr (e, _) ↦ subst (AllAsked Asked) (sym e) (
          mark_rows-AllAsked Asked now (ids (round locked limit now w.committed)) w.committed
            h.queued)
    ];
    sent = λ payload i. elim (run_once-From locked limit now w (to_assess payload) i) [
      | inl old ↦ h.sent payload old
      | inr (r, j, p) ↦
          let (d, q) = asks_of r.destination r.payload payload p in subst Asked q (h.queued r j d)
    ];
  }

  poll-IsAsked :
      (locked : ℕ → Bool) (limit now : ℕ) (w : World Db)
      → IsAsked w
      → IsAsked (poll_once locked limit now w).1
  poll-IsAsked locked limit now w h =
      let (c, s) = poll_keeps locked limit now w in
      let u = relay-IsAsked locked limit now w h in
      record {
        queued = subst (AllAsked Asked) (sym c) u.queued;
        sent = λ payload i. u.sent payload (subst (In (to_assess payload)) s i);
      }

  Letters-IsAsked :
      (raw : Fields) (w w' : World Db)
      → w'.committed ≡ w.committed
      → Letters raw w.sent w'.sent
      → IsAsked w
      → IsAsked w'
  Letters-IsAsked raw w w' c (inl e) h = record {
    queued = subst (AllAsked Asked) (sym c) h.queued;
    sent = λ payload i. h.sent payload (subst (In (to_assess payload)) e i);
  }
  Letters-IsAsked raw w w' c (inr (category, reason, e)) h = record {
    queued = subst (AllAsked Asked) (sym c) h.queued;
    sent = λ payload i.
        elim (In-append (to_assess payload) w.sent _ (subst (In (to_assess payload)) e i)) [
          | inl old ↦ h.sent payload old
          | inr (inl p) ↦ absurd (cc)
          | inr (inr no_more) ↦ absurd no_more
        ];
  }

-- The payload asks for one order of a message that was parsed.
abbrev pub FromBatch : Wiring → Fields → Type 0
FromBatch c payload =
    (raw : Fields) × (m : ParseResultMessage) × (o : OrderMessage) × (c.parse_batch raw ≡ valid m)
    × In o m.orders
    × (payload ≡ assess_request_payload (to_incoming_order m o))

batch-FromBatch :
    (c : Wiring) (raw : Fields) (m : ParseResultMessage)
    → c.parse_batch raw ≡ valid m
    → (o : IncomingOrder) → In o (to_incoming_orders m)
    → FromBatch c (assess_request_payload o)
unfolding to_incoming_orders
batch-FromBatch c raw m p o i =
    let (x, j, e) = In-map (to_incoming_order m) o m.orders i in
    (raw, m, x, p, j, ap assess_request_payload e)

Step-IsAsked :
    (c : Wiring) {w w' : World Db}
    → Step c w w'
    → IsAsked (FromBatch c) w
    → IsAsked (FromBatch c) w'
unfolding on_parse_results on_assess_results handle_batch
Step-IsAsked c (batch_delivered now raw w) h =
    guard_inv c.parse_queue c.parse_batch (handle_batch now) raw (IsAsked (FromBatch c))
      (Letters-IsAsked (FromBatch c) raw)
      (λ m p v k.
        ingest-IsAsked (FromBatch c) now (to_incoming_orders m) v (batch-FromBatch c raw m p) k)
      w h
Step-IsAsked c (verdict_delivered now raw w) h =
    guard_inv c.assess_result_queue c.parse_verdict (handle_verdict c.notify_threshold now) raw
      (IsAsked (FromBatch c)) (Letters-IsAsked (FromBatch c) raw)
      (λ m p v k. verdict-IsAsked (FromBatch c) c.notify_threshold now m v k) w h
Step-IsAsked c (relayed locked now w) h = poll-IsAsked (FromBatch c) locked c.batch_size now w h
Step-IsAsked c (environment answers confirms w) h = record { queued = h.queued; sent = h.sent }

-- In every state that the service can reach from empty tables, every request for an assessment that
-- waits in the outbox, and every one that was sent, asks for one order of a message of parse.results
-- that was parsed.
pub Reach-IsAsked : (c : Wiring) {w : World Db} → Reach c fresh_world w → IsAsked (FromBatch c) w
Reach-IsAsked c here = record { queued = λ r i. absurd i; sent = λ payload i. absurd i }
Reach-IsAsked c (next r s) = Step-IsAsked c s (Reach-IsAsked c r)
