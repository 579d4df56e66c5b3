-- ===== src/OrderCore/Tests/Witnesses.antt =====
-- The theorems on order-core-service at the runs of its tests.
use profi_notifications.OrderCore.Process.Decides.{verdict_decides, first_verdict_wins}
use profi_notifications.OrderCore.Ports.UseCases.{use_cases-IsAtomic}
use profi_notifications.OrderCore.Process.Refines.{store_outcome}
use profi_notifications.OrderCore.Process.{process_outcome}
use profi_notifications.OrderCore.Ingest.Refines.{store_batch}
use profi_notifications.OrderCore.Ports.Sql.{sql_ports, sql_meaning, sql_ports-Implements}
use profi_notifications.OrderCore.Ingest.{ingest_batch}
use profi_notifications.OrderCore.Ingest.Oversized.{Refused, oversized_never}
use profi_notifications.OrderCore.Tests.{
  long_batch, long_batch-SomeRefused, fresh-Answers, fresh_pause, first_id, a_verdict_message,
  a_verdict, a_batch, a_wiring, batch_world, after_verdict, stored_row, decided_row, batch_stored,
  verdict_stored, after_relay, stored_row_waits, above_100, within_100, no_row, reach_batch,
  reach_verdict, decided_row_differs, lost_commit, good_try, batch_IsConsistent, parse_nothing,
  after_letter, letter_sent, batch_answered, batch_waits,
}
use profi_notifications.OrderCore.System.Drained.{poll_pauses_empty, relay_drains}
use profi_notifications.OrderCore.Relay.Drained.{run_rounds, waiting_events}
use profi_notifications.OrderCore.Subscribers.Verdicts.{
  unknown_order_buried, score-OutOfRange_returns,
}
use profi_notifications.OrderCore.Guard.Accounts.{guard_accounts, Accounted}
use profi_notifications.OrderCore.Relay.Atomic.{run_once-Relayed, round, Relayed}
use profi_notifications.OrderCore.Consistency.FirstVerdict.{decided_status}
use profi_notifications.OrderCore.Process.Atomic.{process-IsAtomic}
use profi_notifications.OrderCore.Process.Spec.{store_verdict}
use profi_notifications.OrderCore.Ingest.Spec.{store_orders}
use profi_notifications.OrderCore.Effects.Atomic.{IsAtomic}
use profi_notifications.OrderCore.Ingest.Atomic.{ingest-IsAtomic}
use profi_notifications.OrderCore.Ingest.Redelivery.{redeliver-Converges, Converges, redeliver}
use profi_notifications.OrderCore.System.Decided.{decided_forever}
use profi_notifications.OrderCore.System.Sound.{Reach-IsSound, IsSound}
use profi_notifications.OrderCore.Relay.{run_once}
use profi_notifications.OrderCore.Subscribers.{handle_verdict, on_assess_results}
use profi_notifications.OrderCore.Guard.{permanent_category, valid}
use profi_notifications.OrderCore.Dto.{validation, err, ok}
use profi_notifications.OrderCore.Consistency.{notices, empty_db, row_of}
use profi_notifications.OrderCore.Db.{assign}
use profi_notifications.OrderCore.Effects.{fails, dead_letter}
use profi_notifications.OrderCore.System.{relayed, here, next, fresh_world}
use profi_notifications.Prelude.Json.{end, pos}
use profi_notifications.OrderCore.Ingest.{handle as ingest}
use profi_notifications.OrderCore.Process.{unknown_reason, handle as process_verdict}
use profi_notifications.Prelude.{if◌then◌else◌, leb, false, ◌∷◌, refl, [], some, codes, ◌≡◌}

Reach-IsSound_example : IsSound after_verdict
Reach-IsSound_example = Reach-IsSound a_wiring after_verdict reach_verdict

decided_forever_example : row_of first_id after_relay.committed ≡ some decided_row
decided_forever_example =
    decided_forever a_wiring after_verdict after_relay first_id decided_row reach_verdict
      verdict_stored decided_row_differs (next here (relayed (λ id. false) 12 after_verdict))

redeliver-Converges_example :
    Converges a_batch empty_db (redeliver a_batch lost_commit [] fresh_world)
redeliver-Converges_example = redeliver-Converges a_batch lost_commit [] fresh_world

ingest-IsAtomic_example :
    IsAtomic empty_db (store_orders 5 a_batch empty_db) (ingest 5 a_batch fresh_world)
ingest-IsAtomic_example = ingest-IsAtomic 5 a_batch fresh_world

use_cases-IsAtomic_example :
    IsAtomic empty_db
      (store_batch (sql_ports 5) (sql_meaning 5) (sql_ports-Implements 5) a_batch empty_db)
      (ingest_batch (sql_ports 5) a_batch fresh_world)
    × IsAtomic empty_db
        (store_outcome
          (sql_ports 5)
          (sql_meaning 5)
          (sql_ports-Implements 5)
          70
          (a_verdict 80)
          empty_db)
        (process_outcome (sql_ports 5) 70 (a_verdict 80) fresh_world)
use_cases-IsAtomic_example =
    use_cases-IsAtomic (sql_ports 5) (sql_meaning 5) (sql_ports-Implements 5) a_batch 70
      (a_verdict 80) fresh_world

process-IsAtomic_example :
    IsAtomic batch_world.committed
      (store_verdict 70 9 (a_verdict 80) batch_world.committed)
      (process_verdict 70 9 (a_verdict 80) batch_world)
process-IsAtomic_example = process-IsAtomic 70 9 (a_verdict 80) batch_world

first_verdict_wins_example :
    (process_verdict 70 10
      (a_verdict 20)
      (record (process_verdict 70 9 (a_verdict 80) batch_world).1 {
        answers = fails ∷ [];
      })).1.committed
    ≡ (process_verdict 70 9 (a_verdict 80) batch_world).1.committed
first_verdict_wins_example =
    first_verdict_wins 70 9 10 (a_verdict 80) (a_verdict 20) batch_world (fails ∷ [])
      batch_IsConsistent refl
      (verdict_decides 70 9 (a_verdict 80) batch_world stored_row batch_IsConsistent batch_stored
        stored_row_waits batch_answered.0).0

verdict_decides_example :
    let (r, w') = process_verdict 70 9 (a_verdict 80) batch_world in
    (r ≡ ok tt)
    × (row_of first_id w'.committed
        ≡ some (assign 9 (decided_status (leb 70 80)) (some 80) stored_row))
    × (notices first_id w'.committed ≡ (if leb 70 80 then 1 else 0))
verdict_decides_example =
    verdict_decides 70 9 (a_verdict 80) batch_world stored_row batch_IsConsistent batch_stored
      stored_row_waits batch_answered.0

run_once-Relayed_example :
    let (r, w') = run_once (λ id. false) 10 12 after_verdict in
    Relayed 12 after_verdict.committed
      (round (λ id. false) 10 12 after_verdict.committed)
      after_verdict.sent
      r
      w'
run_once-Relayed_example = run_once-Relayed (λ id. false) 10 12 after_verdict

guard_accounts_example :
    Accounted
      (codes "assess.results")
      parse_nothing
      (handle_verdict 70 9)
      end
      fresh_world
      after_letter
guard_accounts_example =
    guard_accounts (codes "assess.results") parse_nothing (handle_verdict 70 9) end fresh_world
      after_letter letter_sent

score-OutOfRange_returns_example :
    on_assess_results
      (λ raw. valid (a_verdict_message (pos 101) first_id))
      (codes "assess.results")
      70
      9
      end
      batch_world
    ≡ (err validation, batch_world)
score-OutOfRange_returns_example =
    score-OutOfRange_returns (λ raw. valid (a_verdict_message (pos 101) first_id))
      (codes "assess.results") 70 9 end (a_verdict_message (pos 101) first_id) batch_world refl
      above_100

unknown_order_buried_example :
    let (r, w') =
      on_assess_results
        (λ raw. valid (a_verdict_message (pos 50) (codes "42")))
        (codes "assess.results")
        70
        9
        end
        fresh_world in
    (r ≡ ok tt)
    × (w'.committed ≡ empty_db)
    × (w'.sent ≡ dead_letter permanent_category (unknown_reason (codes "42")) end ∷ [])
unknown_order_buried_example =
    unknown_order_buried (λ raw. valid (a_verdict_message (pos 50) (codes "42")))
      (codes "assess.results") 70 9 end (a_verdict_message (pos 50) (codes "42")) fresh_world refl
      within_100 no_row refl refl

relay_drains_example : waiting_events (run_rounds 10 (λ k. k) 2 batch_world).committed ≡ 0
relay_drains_example =
    relay_drains a_wiring 9 2 (λ k. k) batch_world reach_batch batch_answered batch_waits

poll_pauses_empty_example : waiting_events fresh_world.committed ≡ 0
poll_pauses_empty_example =
    poll_pauses_empty a_wiring 9 12 fresh_world here fresh-Answers fresh_pause

oversized_never_example :
    Refused empty_db (redeliver long_batch lost_commit (good_try ∷ []) fresh_world)
oversized_never_example =
    oversized_never long_batch lost_commit (good_try ∷ []) fresh_world long_batch-SomeRefused
