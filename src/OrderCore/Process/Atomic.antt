-- ===== src/OrderCore/Process/Atomic.antt =====
-- How much of a verdict is stored.
use profi_notifications.OrderCore.Ports.Sql.{sql_ports}
use profi_notifications.OrderCore.Process.{process_outcome, apply_decision, process_found}
use profi_notifications.Prelude.{◌∙◌, ◌≡◌, ℕ, arith}
use profi_notifications.OrderCore.Domain.{AssessmentOutcome}
use profi_notifications.OrderCore.Effects.{
  Session, raise, World, ◌>>=◌, statement, write_log, commit,
}
use profi_notifications.OrderCore.Effects.Atomic.{opened, exit_keeps, IsAtomic, exit-IsAtomic}
use profi_notifications.OrderCore.Db.{Db, insert_event, update_status}
use profi_notifications.OrderCore.Db.Repositories.{get, set_status, add_notification}
use profi_notifications.OrderCore.Process.{process, handle}
use profi_notifications.OrderCore.Process.Spec.{store_verdict}

module _ (threshold now : ℕ) where
  run-IsAtomic :
      (o : AssessmentOutcome) (w : World Db)
      → (let (r, s) =
            process (sql_ports now) threshold o (record { world = w; db = w.committed }) in
          IsAtomic w.committed (store_verdict threshold now o w.committed) (r, s.world))
  unfolding process ◌>>=◌ statement write_log commit get set_status add_notification insert_event
      update_status store_verdict
  run-IsAtomic o w = ground arith

  -- Whatever the database answers, ProcessAssessment.handle does to the committed tables what
  -- the specification store_verdict does if it returns, and if it raises this or nothing.
  pub process-IsAtomic :
      (o : AssessmentOutcome) (w : World Db)
      → IsAtomic w.committed (store_verdict threshold now o w.committed) (handle threshold now o w)
  unfolding handle process_outcome
  process-IsAtomic o w = exit-IsAtomic (process (sql_ports now) threshold o) w _ (run-IsAtomic o w)

  sent-run :
      (o : AssessmentOutcome) (s : Session Db)
      → (process (sql_ports now) threshold o s).1.world.sent ≡ s.world.sent
  unfolding process process_found apply_decision ◌>>=◌ statement write_log commit get set_status
      add_notification raise
  sent-run o s = ground arith

  pub sent-process :
      (o : AssessmentOutcome) (w : World Db) → (handle threshold now o w).1.sent ≡ w.sent
  unfolding handle process_outcome
  sent-process o w = (exit_keeps (process (sql_ports now) threshold o) w).1 ∙ sent-run o (opened w)
