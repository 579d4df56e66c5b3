-- ===== src/OrderCore/Process/Refines.antt =====
-- ProcessAssessment over any implementation of its ports.
use mathlib.Core.Path.{subst}
use profi_notifications.Prelude.{
  ℕ, Bool, true, false, Option, none, some, ◌≡◌, refl, sym, ap, ◌∙◌, if◌then◌else◌, arith, inl, inr,
  Bool-cases,
}
use profi_notifications.OrderCore.Domain.{
  profi, AssessmentOutcome, Order, Decision, decide_notification, can_apply_assessment,
  notify_requested, no_notify,
}
use profi_notifications.OrderCore.Dto.{Result, ok, err}
use profi_notifications.OrderCore.Effects.{
  Tx, Session, World, continue, raise, ◌>>=◌, ◌>>◌, write_log, commit, notification_requested,
  order_no_notify, assessment_ignored,
}
use profi_notifications.OrderCore.Effects.Atomic.{IsAtomic, exit-IsAtomic, opened}
use profi_notifications.OrderCore.Ports.{Ports, Meaning, Implements}
use profi_notifications.OrderCore.Ports.Runs.{after, RunsAs, Does-then, logged}
use profi_notifications.OrderCore.Process.{apply_decision, process_found, process, process_outcome}

-- A body that ends with a commit stores what it did, or nothing.
commit-IsAtomic :
    {D : Type 0} (f : D → D) (m : Tx D Unit) (s : Session D)
    → RunsAs f m
    → s.db ≡ s.world.committed
    → let (r, t) = (do m; commit) s in IsAtomic s.db (f s.db) (r, t.world)
unfolding ◌>>=◌ commit
commit-IsAtomic f m s runs same = let r = runs s in ground (arith, r, same)

module _ {D : Type 0} (ports : Ports D) (meaning : Meaning D) (i : Implements ports meaning)
    (threshold : ℕ) where
  -- The first verdict on an order: its status, and the event of a positive decision.
  abbrev pub decided : AssessmentOutcome → Bool → D → D
  decided o true d =
      after (λ _ e. after (λ _ x. x) (meaning.notified profi o.order_id o.notification e))
        (meaning.updated profi o.order_id notify_requested (some o.suitability_score) d)
  decided o false d =
      after (λ _ e. e) (meaning.updated profi o.order_id no_notify (some o.suitability_score) d)

  abbrev pub verdict_for : AssessmentOutcome → Result (Option Order) → D → D
  verdict_for o (ok (some order)) d =
      if can_apply_assessment order.status
      then decided o (decide_notification o threshold).notify d
      else d
  verdict_for o (ok none) d = d
  verdict_for o (err e) d = d

  abbrev pub store_outcome : AssessmentOutcome → D → D
  store_outcome o d = verdict_for o (meaning.found profi o.order_id d) d

  apply_decision-RunsAs :
      (o : AssessmentOutcome) (decision : Decision)
      → RunsAs (decided o decision.notify) (apply_decision ports threshold o decision)
  unfolding apply_decision
  apply_decision-RunsAs o decision = elim (Bool-cases decision.notify) [
    | inl e ↦ rw e (
        Does-then _ _ (i.set_status profi o.order_id notify_requested (some o.suitability_score)) _
          _
          (λ _.
            Does-then _ _ (i.add_notification profi o.order_id o.notification) _ _
              (λ _. logged (notification_requested o.order_id o.suitability_score))))
    | inr e ↦ rw e (
        Does-then _ _ (i.set_status profi o.order_id no_notify (some o.suitability_score)) _ _
          (λ _. logged (order_no_notify o.order_id decision.reason)))
  ]

  found-IsAtomic :
      (o : AssessmentOutcome) (found : Option Order) (s : Session D)
      → s.db ≡ s.world.committed
      → let (r, t) = process_found ports threshold o found s in
        IsAtomic s.db (verdict_for o (ok found) s.db) (r, t.world)
  unfolding process_found raise
  found-IsAtomic o none s same = inl (sym same)
  found-IsAtomic o (some order) s same = elim (Bool-cases (can_apply_assessment order.status)) [
    | inl e ↦ rw e (
        commit-IsAtomic (decided o (decide_notification o threshold).notify)
          (apply_decision ports threshold o (decide_notification o threshold)) s
          (apply_decision-RunsAs o (decide_notification o threshold)) same)
    | inr e ↦ rw e (
        commit-IsAtomic (λ d. d) (write_log (assessment_ignored o.order_id order.status)) s
          (logged (assessment_ignored o.order_id order.status)) same)
  ]

  read-IsAtomic :
      (o : AssessmentOutcome) (s : Session D) (out : Result (Option Order) × Session D)
      → ports.get profi o.order_id s ≡ out
      → s.db ≡ s.world.committed
      → let (r, t) = continue out.0 (process_found ports threshold o) out.1 in
        IsAtomic s.db (store_outcome o s.db) (r, t.world)
  read-IsAtomic o s (ok found, t) e same =
      let (r, t') = process_found ports threshold o found t in
      let g = i.get profi o.order_id in
      let d = g.done s found (ap (λ (x : Result (Option Order) × Session D). x.0) e) in
      let q : t.db ≡ s.db = sym (
        ap (λ (x : Result (Option Order) × D). x.1) d
        ∙ ap (λ (x : Result (Option Order) × Session D). x.1.db) e) in
      let c : t.world.committed ≡ s.world.committed =
        sym (ap (λ (x : Result (Option Order) × Session D). x.1.world.committed) e)
        ∙ g.uncommitted s in
      subst (λ (x : Result (Option Order)). IsAtomic s.db (verdict_for o x s.db) (r, t'.world))
        (sym (ap (λ (x : Result (Option Order) × D). x.0) d))
        (subst (λ (b : D). IsAtomic b (verdict_for o (ok found) b) (r, t'.world)) q
          (found-IsAtomic o found t (q ∙ same ∙ sym c)))
  read-IsAtomic o s (err x, t) e same =
      inl (ground (arith, (i.get profi o.order_id).uncommitted s, e, same))

  -- For every implementation of the ports whose operations do to the tables what they mean, and
  -- commit and send nothing: ProcessAssessment.handle does to the committed tables, if it returns,
  -- what the meanings of its operations do for the verdict, and nothing if the order may not take
  -- one; if it raises, this or nothing; whatever the database answers.
  pub process_outcome-IsAtomic :
      (o : AssessmentOutcome) (w : World D)
      → IsAtomic w.committed (store_outcome o w.committed) (process_outcome ports threshold o w)
  unfolding process_outcome process ◌>>=◌
  process_outcome-IsAtomic o w =
      exit-IsAtomic (process ports threshold o) w _
        (read-IsAtomic o (opened w) (ports.get profi o.order_id (opened w)) refl refl)
