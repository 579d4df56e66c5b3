-- ===== src/OrderCore/Concurrent/Safe.antt =====
-- What holds in every state that interleaved transactions reach.
use profi_notifications.OrderCore.System.Decided.{store_orders-Holds}
use profi_notifications.OrderCore.Relay.Atomic.{round, ids, run_once-Relayed}
use profi_notifications.OrderCore.Process.Spec.{verdict_on}
use profi_notifications.OrderCore.Relay.Poll.{poll_keeps, poll_once}
use profi_notifications.OrderCore.Ingest.Spec.{store_orders}
use profi_notifications.OrderCore.Effects.Atomic.{IsAtomic}
use profi_notifications.OrderCore.Domain.{AssessmentOutcome}
use profi_notifications.OrderCore.Concurrent.Verdicts.{
  verdict_on-IsStored, begin-Backed, verdict_on-IsCoherent, finish-IsAtomic, Backed-kept, Backed,
}
use profi_notifications.OrderCore.Dto.{err, ok, IncomingOrder, Result}
use profi_notifications.Prelude.Members.{In-append_left, In-append_right, In-append, In}
use profi_notifications.OrderCore.System.{Wiring}
use profi_notifications.OrderCore.Relay.{mark_rows}
use profi_notifications.Prelude.{inr, inl, ◌∷◌, ◌++◌, refl, Bool, Text, List, ℕ}
use profi_notifications.OrderCore.Db.{Db, find_order}
use profi_notifications.OrderCore.Concurrent.Coherent.{
  store_orders-IsCoherent, IsStored, mark_rows-IsCoherent, IsCoherent,
}
use profi_notifications.OrderCore.Concurrent.{
  answers, relays, ingests, finish_verdict, finishes, start, poll_once, begin_verdict, begins, then,
  IncomingOrder, fresh_service, Bool, Result, AssessmentOutcome, ℕ, find_order, List, Wiring, Db,
  Reading, Service, Event, Trace,
}
use profi_notifications.OrderCore.Effects.{World}
use profi_notifications.OrderCore.Ingest
use profi_notifications.OrderCore.Ingest.Atomic.{ingest-IsAtomic}

record IsSafe (s : Service) : Type 0 where
  coherent : IsCoherent s.world.committed
  backed : (r : Reading) → In r s.readings → Backed r.outcome.order_id r.read s.world.committed

-- A property of the tables before and after a handler that stored `new` or nothing.
atomic_inv :
    (P : Db → Type 0) (old new : Db) (out : Result Unit × World Db)
    → IsAtomic old new out
    → P old
    → P new
    → P out.1.committed
atomic_inv P old new (ok u, w) a p q = rw a q
atomic_inv P old new (err e, w) (inl a) p q = rw a p
atomic_inv P old new (err e, w) (inr a) p q = rw a q

-- Every event keeps the tables coherent and the stored orders stored.
record Keeps (old new : Db) : Type 0 where
  coherent : IsCoherent old → IsCoherent new
  stored : (k : Text) → IsStored k old → IsStored k new

Keeps-refl : (db : Db) → Keeps db db
Keeps-refl db = record { coherent = λ h. h; stored = λ k h. h }

ingest-Keeps :
    (now : ℕ) (batch : List IncomingOrder) (w : World Db)
    → Keeps w.committed (Ingest.handle now batch w).1.committed
ingest-Keeps now batch w =
    atomic_inv (Keeps w.committed) w.committed (store_orders now batch w.committed)
      (Ingest.handle now batch w) (ingest-IsAtomic now batch w) (Keeps-refl w.committed)
      (record {
        coherent = store_orders-IsCoherent now batch w.committed;
        stored = λ k (row, at). (row, store_orders-Holds k row now batch w.committed at);
      })

mark-Keeps : (now : ℕ) (is : List ℕ) (db : Db) → Keeps db (mark_rows now is db)
unfolding mark_rows
mark-Keeps now is db = record { coherent = mark_rows-IsCoherent now is db; stored = λ k h. h }

relay-Keeps :
    (locked : ℕ → Bool) (limit now : ℕ) (w : World Db)
    → Keeps w.committed (poll_once locked limit now w).1.committed
relay-Keeps locked limit now w =
    let (c, _) = poll_keeps locked limit now w in
    elim (run_once-Relayed locked limit now w).fate [
      | inl e ↦ rw (c, e) (Keeps-refl w.committed)
      | inr (e, d) ↦
          rw (c, e) (mark-Keeps now (ids (round locked limit now w.committed)) w.committed)
    ]

finish-Keeps :
    (threshold : ℕ) (r : Reading) (w : World Db)
    → Backed r.outcome.order_id r.read w.committed
    → Keeps w.committed (finish_verdict threshold r w).1.committed
finish-Keeps threshold r w b =
    atomic_inv (Keeps w.committed) w.committed
      (verdict_on threshold r.now r.outcome r.read w.committed) (finish_verdict threshold r w)
      (finish-IsAtomic threshold r w) (Keeps-refl w.committed)
      (record {
        coherent = verdict_on-IsCoherent threshold r.now r.outcome r.read w.committed b;
        stored = verdict_on-IsStored threshold r.now r.outcome r.read w.committed;
      })

Keeps-IsSafe :
    (w w' : World Db) (rs rs' : List Reading)
    → Keeps w.committed w'.committed
    → ((r : Reading) → In r rs' → In r rs)
    → IsSafe (record { world = w; readings = rs })
    → IsSafe (record { world = w'; readings = rs' })
Keeps-IsSafe w w' rs rs' k sub h = record {
  coherent = k.coherent h.coherent;
  backed = λ r i.
      Backed-kept r.outcome.order_id r.read w.committed w'.committed (k.stored r.outcome.order_id)
        (h.backed r (sub r i));
}

In-without :
    (r x : Reading) (before after : List Reading)
    → In r (before ++ after)
    → In r (before ++ x ∷ after)
In-without r x before after i = elim (In-append r before after i) [
  | inl l ↦ In-append_left r before (x ∷ after) l
  | inr l ↦ In-append_right r before (x ∷ after) (inr l)
]

begins-IsSafe :
    (now : ℕ) (o : AssessmentOutcome) (s : Service)
    → IsSafe s
    → IsSafe (record s { readings = begin_verdict now o s.world.committed ∷ s.readings })
begins-IsSafe now o s h = record {
  coherent = h.coherent;
  backed = λ r i. elim i [
    | inl e ↦ rw e (unfold begin_verdict in begin-Backed now o s.world.committed)
    | inr j ↦ h.backed r j
  ];
}

Event-IsSafe : (c : Wiring) {s t : Service} → Event c s t → IsSafe s → IsSafe t
Event-IsSafe c (begins now o s) h = begins-IsSafe now o s h
Event-IsSafe c (finishes before after r w) h =
    Keeps-IsSafe w (finish_verdict c.notify_threshold r w).1 (before ++ r ∷ after) (before ++ after)
      (finish-Keeps c.notify_threshold r w
        (h.backed r (In-append_right r before (r ∷ after) (inl refl))))
      (λ x i. In-without x r before after i) h
Event-IsSafe c (ingests now batch s) h =
    Keeps-IsSafe s.world (Ingest.handle now batch s.world).1 s.readings s.readings
      (ingest-Keeps now batch s.world) (λ r i. i) h
Event-IsSafe c (relays locked now s) h =
    Keeps-IsSafe s.world (poll_once locked c.batch_size now s.world).1 s.readings s.readings
      (relay-Keeps locked c.batch_size now s.world) (λ r i. i) h
Event-IsSafe c (answers db broker s) h = record { coherent = h.coherent; backed = h.backed }

fresh-IsSafe : IsSafe fresh_service
unfolding find_order
fresh-IsSafe = record {
  coherent = record { coheres = λ k. (refl, refl) };
  backed = λ r i. absurd i;
}

Trace-IsSafe : (c : Wiring) {s t : Service} → IsSafe s → Trace c s t → IsSafe t
Trace-IsSafe c h start = h
Trace-IsSafe c h (then r e) = Event-IsSafe c e (Trace-IsSafe c h r)

-- Whatever the interleaving of the transactions of verdicts, with batches and rounds of the relay whole
-- in between, from empty tables on, and whatever the database and the broker answer: an order that
-- is stored has exactly one request for an assessment; it has no notification while its status is
-- assess_requested, exactly one if it is notify_requested, and at most one if it is no_notify; and
-- an id without an order has no event.
pub Trace-IsCoherent :
    (c : Wiring) (s : Service) → Trace c fresh_service s → IsCoherent s.world.committed
Trace-IsCoherent c s r = (Trace-IsSafe c fresh-IsSafe r).coherent
