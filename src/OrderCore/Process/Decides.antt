-- ===== src/OrderCore/Process/Decides.antt =====
-- What ProcessAssessment.handle does to consistent tables, one verdict after the other.
use mathlib.Core.Path.{subst}
use profi_notifications.Prelude.{
  sym, ap, ◌∙◌, List, if◌then◌else◌, List, ◌≡◌, ℕ, [], some, leb, length, arith, ◌≤◌, inl, inr,
  refl,
}
use profi_notifications.OrderCore.Domain.{
  AssessmentOutcome, Order, profi, status_value, assess_requested,
}
use profi_notifications.OrderCore.Dto.{Result, ok, err}
use profi_notifications.OrderCore.Db.{Db, OrderRow, assign, read_order, insert_event, update_status}
use profi_notifications.OrderCore.Db.Keys.{length-event_key_notify}
use profi_notifications.OrderCore.Db.Repositories.{get, set_status, add_notification}
use profi_notifications.OrderCore.Consistency.{IsConsistent, row_of, notices}
use profi_notifications.OrderCore.Consistency.FirstVerdict.{
  decided_status, stored_decision, stored_first,
}
use profi_notifications.OrderCore.Consistency.Verdict.{read_order_found, agreed}
use profi_notifications.OrderCore.Effects.{
  Answer, World, ◌>>=◌, statement, write_log, commit, in_transaction, exit_context, close,
}
use profi_notifications.OrderCore.Effects.Atomic.{IsAtomic}
use profi_notifications.OrderCore.Process.{
  handle, process_outcome, process, process_found, apply_decision,
}
use profi_notifications.OrderCore.Process.Atomic.{process-IsAtomic}
use profi_notifications.OrderCore.Process.Spec.{store_verdict}

-- If the database answers, a verdict on a stored order is handled without an error.
handle_returns :
    (threshold now : ℕ) (o : AssessmentOutcome) (w : World Db) (order : Order)
    → read_order (row_of o.order_id w.committed) ≡ ok (some order)
    → length o.order_id ≤ 128
    → w.answers ≡ []
    → (handle threshold now o w).0 ≡ ok tt
unfolding handle process_outcome process process_found apply_decision get set_status
    add_notification in_transaction exit_context close statement write_log commit ◌>>=◌ insert_event
    update_status
handle_returns threshold now o w order e fits a =
    ground (arith, length-event_key_notify profi o.order_id fits)

returned_stored :
    (old new : Db) (out : Result Unit × World Db)
    → IsAtomic old new out
    → out.0 ≡ ok tt
    → out.1.committed ≡ new
returned_stored old new (ok u, w) a e = a
returned_stored old new (err x, w) a e = ground arith

-- What holds of the old and of the new tables holds of those that an atomic handler leaves.
either_way :
    (old new : Db) (P : Db → Type 0) (out : Result Unit × World Db)
    → IsAtomic old new out
    → P old
    → P new
    → P out.1.committed
either_way old new P (ok u, w) a p q = subst P (sym a) q
either_way old new P (err x, w) (inl a) p q = subst P (sym a) p
either_way old new P (err x, w) (inr a) p q = subst P (sym a) q

module _ (threshold now : ℕ) (o : AssessmentOutcome) (w : World Db) where
  -- A handler that returns has stored what the specification stores.
  handled :
      (handle threshold now o w).0 ≡ ok tt
      → (handle threshold now o w).1.committed ≡ store_verdict threshold now o w.committed
  handled =
      returned_stored w.committed (store_verdict threshold now o w.committed)
        (handle threshold now o w) (process-IsAtomic threshold now o w)

-- In consistent tables and with a database that answers, ProcessAssessment.handle returns for a
-- verdict on an order whose status is assess_requested, and commits into its row the score, and the
-- status notify_requested if the score reaches the threshold, else no_notify; the order then has
-- one notification in the first case and none in the second.
pub verdict_decides :
    (threshold now : ℕ) (o : AssessmentOutcome) (w : World Db) (row : OrderRow)
    → IsConsistent w.committed
    → row_of o.order_id w.committed ≡ some row
    → row.status ≡ status_value assess_requested
    → w.answers ≡ []
    → let (r, w') = handle threshold now o w in
      let b = leb threshold o.suitability_score in
      (r ≡ ok tt)
      × (row_of o.order_id w'.committed
          ≡ some (assign now (decided_status b) (some o.suitability_score) row))
      × (notices o.order_id w'.committed ≡ (if b then 1 else 0))
verdict_decides threshold now o w row h at waits a =
    let (order, p, q) = read_order_found w.committed o.order_id row h at in
    let fits = (agreed now o w.committed o.order_id row at waits (h.agrees o.order_id)).0 in
    let r = handle_returns threshold now o w order p fits a in
    let c = handled threshold now o w r in
    let (written, noticed) = stored_decision threshold now o w.committed row h at waits in
    (r, rw c written, rw c noticed)

-- If ProcessAssessment.handle returned for a verdict on consistent tables, whatever the database
-- answered, then a second verdict on the same order, whatever it says, whatever the database
-- answers, and whether it returns or raises, leaves the committed tables as the first left them.
pub first_verdict_wins :
    (threshold now now' : ℕ) (o o' : AssessmentOutcome) (w : World Db) (answers : List Answer)
    → IsConsistent w.committed
    → o'.order_id ≡ o.order_id
    → (handle threshold now o w).0 ≡ ok tt
    → let w' = (handle threshold now o w).1 in
      (handle threshold now' o' (record w' { answers = answers })).1.committed ≡ w'.committed
first_verdict_wins threshold now now' o o' w answers h same r =
    let w' = (handle threshold now o w).1 in
    let c : w'.committed ≡ store_verdict threshold now o w.committed =
      handled threshold now o w r in
    let d : store_verdict threshold now' o' w'.committed ≡ w'.committed =
      ap (store_verdict threshold now' o') c
      ∙ stored_first threshold now now' o o' w.committed h same
      ∙ sym c in
    let later = record w' { answers = answers } in
    either_way w'.committed (store_verdict threshold now' o' w'.committed) (λ db. db ≡ w'.committed)
      (handle threshold now' o' later) (process-IsAtomic threshold now' o' later) refl d
