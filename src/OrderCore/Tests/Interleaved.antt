-- ===== src/OrderCore/Tests/Interleaved.antt =====
-- Two verdicts on one order whose transactions overlap.
use profi_notifications.OrderCore.Db.{assign}
use profi_notifications.OrderCore.Consistency.{row_of}
use profi_notifications.Prelude.{arith, some, [], ◌∷◌}
use profi_notifications.OrderCore.Concurrent.{
  Service, Reading, begin_verdict, finish_verdict, Trace, start, then, begins, finishes, ingests,
  fresh_service,
}
use profi_notifications.OrderCore.Concurrent.Safe.{Trace-IsCoherent}
use profi_notifications.OrderCore.Concurrent.Coherent.{IsCoherent}
use profi_notifications.OrderCore.Tests.{
  arith, assign, some, row_of, ◌∷◌, [], a_wiring, a_batch, a_verdict,
}
use profi_notifications.OrderCore.Ingest

abbrev ingested : Service
ingested = record fresh_service { world = (Ingest.handle 5 a_batch fresh_service.world).1 }

abbrev high_read : Reading
high_read = begin_verdict 9 (a_verdict 80) ingested.world.committed

abbrev low_read : Reading
low_read = begin_verdict 10 (a_verdict 20) ingested.world.committed

abbrev high_begun : Service
high_begun = record ingested { readings = high_read ∷ [] }

abbrev both_begun : Service
both_begun = record ingested { readings = low_read ∷ high_read ∷ [] }

abbrev high_finished : Service
high_finished = record {
  world = (finish_verdict 70 high_read ingested.world).1;
  readings = low_read ∷ [];
}

abbrev both_finished : Service
both_finished = record { world = (finish_verdict 70 low_read high_finished.world).1; readings = [] }

abbrev overlap : Trace a_wiring fresh_service both_finished
overlap =
    then
      (then
        (then
          (then (then start (ingests 5 a_batch fresh_service)) (begins 9 (a_verdict 80) ingested))
          (begins 10 (a_verdict 20) high_begun))
        (finishes (low_read ∷ []) [] high_read ingested.world))
      (finishes [] [] low_read high_finished.world)

Trace-IsCoherent_example : IsCoherent both_finished.world.committed
Trace-IsCoherent_example = Trace-IsCoherent a_wiring both_finished overlap
