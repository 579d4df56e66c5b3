-- ===== src/OrderCore/Concurrent/Verdicts.antt =====
-- What the rest of a transaction of a verdict does to the tables.
use profi_notifications.OrderCore.Ports.Sql.{sql_ports}
use profi_notifications.OrderCore.Concurrent.Coherent.{IsCoherent, IsStored, applied-Coheres}
use profi_notifications.OrderCore.Consistency.FirstVerdict.{decided_status}
use profi_notifications.OrderCore.Db.Repositories.{add_notification, set_status}
use profi_notifications.OrderCore.Effects.Atomic.{opened, exit-IsAtomic, IsAtomic}
use profi_notifications.OrderCore.Process.{apply_decision, process_found}
use profi_notifications.OrderCore.Effects.{raise, commit, write_log, statement, ◌>>=◌, lift}
use profi_notifications.OrderCore.Consistency.Verdict.{row_of-applied}
use profi_notifications.OrderCore.Process.Spec.{verdict_on, apply_verdict}
use profi_notifications.OrderCore.Domain.{
  decide_notification, can_apply_assessment, AssessmentOutcome,
}
use profi_notifications.OrderCore.Dto.{err, ok, Result}
use profi_notifications.OrderCore.Consistency.{row_of}
use profi_notifications.OrderCore.Db.{insert_event, read_order, assign, update_status, Db}
use profi_notifications.Prelude.{
  refl, text_eq, if◌then◌else◌, ◌∙◌, Option-cases, arith, none, inr, inl, Bool-cases, some, Option,
  Text, ℕ,
}
use profi_notifications.OrderCore.Concurrent.{
  read_order, ◌>>=◌, World, Reading, Order, process_found, begin_verdict, finish_verdict, lift,
  Result, AssessmentOutcome, Db, Option, ℕ,
}

-- What was read of a stored order is of a stored order.
abbrev pub Backed : Text → Result (Option Order) → Db → Type 0
Backed k (ok (some order)) db = IsStored k db
Backed k _ db = Unit

pub verdict_on-IsCoherent :
    (threshold now : ℕ) (o : AssessmentOutcome) (read : Result (Option Order)) (db : Db)
    → Backed o.order_id read db
    → IsCoherent db
    → IsCoherent (verdict_on threshold now o read db)
unfolding verdict_on
verdict_on-IsCoherent threshold now o (ok none) db b h = h
verdict_on-IsCoherent threshold now o (err e) db b h = h
verdict_on-IsCoherent threshold now o (ok (some order)) db (row, at) h =
    elim (Bool-cases (can_apply_assessment order.status)) [
      | inl t ↦ rw t (record {
        coheres = λ k.
            applied-Coheres now o db k row at (decide_notification o threshold).notify
              (h.coheres o.order_id) (h.coheres k);
      })
      | inr f ↦ rw f h
    ]

pub verdict_on-IsStored :
    (threshold now : ℕ) (o : AssessmentOutcome) (read : Result (Option Order)) (db : Db) (k : Text)
    → IsStored k db
    → IsStored k (verdict_on threshold now o read db)
unfolding verdict_on
verdict_on-IsStored threshold now o (ok none) db k h = h
verdict_on-IsStored threshold now o (err e) db k h = h
verdict_on-IsStored threshold now o (ok (some order)) db k (row, at) =
    elim (Bool-cases (can_apply_assessment order.status)) [
      | inl t ↦
          let b = (decide_notification o threshold).notify in
          rw t (
            if text_eq o.order_id k
                then assign now (decided_status b) (some o.suitability_score) row
                else row,
            row_of-applied now o db k b ∙ rw at refl,
          )
      | inr f ↦ rw f (row, at)
    ]

-- Backed readings stay so, as long as rows stay.
pub Backed-kept :
    (k : Text) (read : Result (Option Order)) (old new : Db)
    → (IsStored k old → IsStored k new)
    → Backed k read old
    → Backed k read new
Backed-kept k (ok (some order)) old new f b = f b
Backed-kept k (ok none) old new f b = tt
Backed-kept k (err e) old new f b = tt

pub begin-Backed :
    (now : ℕ) (o : AssessmentOutcome) (db : Db) → Backed o.order_id (begin_verdict now o db).read db
unfolding begin_verdict
begin-Backed now o db = elim (Option-cases (row_of o.order_id db)) [
  | inl e ↦ rw e (unfold read_order in tt)
  | inr (row, e) ↦ read_found (read_order (row_of o.order_id db)) (row, e)
]
  where
    read_found : (read : Result (Option Order)) → IsStored o.order_id db → Backed o.order_id read db
    read_found (ok (some order)) s = s
    read_found (ok none) s = tt
    read_found (err e) s = tt

-- The rest of the transaction does what the specification says of what was read.
body-IsAtomic :
    (threshold now : ℕ) (o : AssessmentOutcome) (read : Result (Option Order)) (w : World Db)
    → (let (r, s) =
          (lift read >>= λ order. process_found (sql_ports now) threshold o order) (opened w) in
        IsAtomic w.committed (verdict_on threshold now o read w.committed) (r, s.world))
unfolding lift process_found apply_decision ◌>>=◌ statement write_log commit set_status
    add_notification insert_event update_status verdict_on apply_verdict raise
body-IsAtomic threshold now o read w = ground arith

pub finish-IsAtomic :
    (threshold : ℕ) (r : Reading) (w : World Db)
    → IsAtomic w.committed
        (verdict_on threshold r.now r.outcome r.read w.committed)
        (finish_verdict threshold r w)
unfolding finish_verdict
finish-IsAtomic threshold r w =
    exit-IsAtomic
      (λ s. (lift r.read >>= λ order. process_found (sql_ports r.now) threshold r.outcome order) s)
      w _ (body-IsAtomic threshold r.now r.outcome r.read w)
