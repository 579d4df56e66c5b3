-- ===== src/OrderCore/Wire/Scores.antt =====
-- The range that the outcome of an assessment imposes on the score of its message.
use profi_notifications.OrderCore.Wire.{ℕ, AssessmentOutcome, to_command}
use profi_notifications.OrderCore.Wire.{
  negsuc, pos, err, ℤ, AssessmentResultMessage, to_assessment_outcome, checked_score,
}
use profi_notifications.Prelude.{ℕ, arith, refl, ◌≡◌, ◌<◌}
use profi_notifications.Prelude.Json.{negsuc, pos, ℤ}
use profi_notifications.OrderCore.Dto.{ok, validation, err}
use profi_notifications.OrderCore.Domain.{AssessmentOutcome}

-- Outside 0 to 100.
abbrev pub OutOfRange : ℤ → Type 0
OutOfRange (pos n) = 100 < n
OutOfRange (negsuc n) = Unit

checked_score_out : (z : ℤ) → OutOfRange z → checked_score z ≡ err validation
unfolding checked_score
checked_score_out (pos n) h = ground arith
checked_score_out (negsuc n) h = refl

pub outcome-OutOfRange :
    (message : AssessmentResultMessage)
    → OutOfRange message.suitability_score
    → to_assessment_outcome message ≡ err validation
unfolding to_assessment_outcome
outcome-OutOfRange message h = rw (checked_score_out message.suitability_score h) refl

-- A score in range is kept, and so is the rest of the message.
pub outcome_in_range :
    (message : AssessmentResultMessage)
    → ¬ OutOfRange message.suitability_score
    → (o : AssessmentOutcome) × (to_assessment_outcome message ≡ ok o)
      × (o.order_id ≡ message.order_id)
      × (pos o.suitability_score ≡ message.suitability_score)
unfolding to_assessment_outcome
outcome_in_range message n =
    let (k, e, p) = in_range message.suitability_score n in
    (
      record {
        order_id = message.order_id;
        suitability_score = k;
        notification = to_command message.notification;
      },
      rw e refl,
      refl,
      p,
    )
  where
    in_range : (z : ℤ) → ¬ OutOfRange z → (k : ℕ) × (checked_score z ≡ ok k) × (pos k ≡ z)
    in_range (pos m) n = (m, ground arith, refl)
    in_range (negsuc m) n = absurd (n tt)
