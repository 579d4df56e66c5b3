-- ===== src/OrderCore/Subscribers/Verdicts.antt =====
-- What becomes of a message of assess.results.
use profi_notifications.OrderCore.Subscribers.{
  err, Db, World, ℕ, AssessmentResultMessage, Parsed, Fields, on_assess_results, handle_verdict,
}
use profi_notifications.Prelude.{ap, ◌∙◌, refl, ◌∷◌, ◌++◌, [], none, ℕ, ◌≡◌, Text}
use profi_notifications.Prelude.Json.{Fields}
use profi_notifications.OrderCore.Guard.{permanent_category, valid, Parsed}
use profi_notifications.OrderCore.Wire.{AssessmentResultMessage}
use profi_notifications.OrderCore.Effects.{dead_letter, World}
use profi_notifications.OrderCore.Db.{Db}
use profi_notifications.OrderCore.Wire.Scores.{outcome_in_range, outcome-OutOfRange, OutOfRange}
use profi_notifications.OrderCore.Dto.{permanent, ok, validation, err}
use profi_notifications.OrderCore.Consistency.{row_of}
use profi_notifications.OrderCore.Guard.Accounts.{guard_permanent, guard_returns}
use profi_notifications.OrderCore.Process.{unknown_reason}
use profi_notifications.OrderCore.Process.Unknown.{handle_unknown}

module _ (parse : Fields → Parsed AssessmentResultMessage) (queue : Text) (threshold : ℕ) where
  verdict-OutOfRange :
      (now : ℕ) (message : AssessmentResultMessage) (w : World Db)
      → OutOfRange message.suitability_score
      → handle_verdict threshold now message w ≡ (err validation, w)
  unfolding handle_verdict
  verdict-OutOfRange now message w h = rw (outcome-OutOfRange message h) refl

  -- A message of assess.results that parses, and whose score lies outside 0 to 100, is
  -- returned to its queue with a validation error, and nothing has happened: no dead letter,
  -- no row, no log.
  pub score-OutOfRange_returns :
      (now : ℕ) (raw : Fields) (message : AssessmentResultMessage) (w : World Db)
      → parse raw ≡ valid message
      → OutOfRange message.suitability_score
      → on_assess_results parse queue threshold now raw w ≡ (err validation, w)
  unfolding on_assess_results
  score-OutOfRange_returns now raw message w p h =
      guard_returns queue parse (handle_verdict threshold now) raw w w message validation p
        (verdict-OutOfRange now message w h) (λ reason e. cc)

  verdict_unknown :
      (now : ℕ) (message : AssessmentResultMessage) (w : World Db)
      → ¬ OutOfRange message.suitability_score
      → row_of message.order_id w.committed ≡ none
      → w.answers ≡ []
      → let (r, w') = handle_verdict threshold now message w in
        (r ≡ err (permanent (unknown_reason message.order_id)))
        × (w'.committed ≡ w.committed)
        × (w'.sent ≡ w.sent)
        × (w'.confirms ≡ w.confirms)
  unfolding handle_verdict
  verdict_unknown now message w n u a =
      let (o, e, i, s) = outcome_in_range message n in
      let h = handle_unknown threshold now o w (rw i u) a in
      rw e (h.0 ∙ ap (λ k. err (permanent (unknown_reason k))) i, h.1, h.2, h.3)

  -- A message of assess.results that parses, whose score lies in 0 to 100 and whose order is
  -- not stored, is acknowledged if the database and the broker answer every call: its dead
  -- letter of category permanent is sent, and the committed tables are as before.
  pub unknown_order_buried :
      (now : ℕ) (raw : Fields) (message : AssessmentResultMessage) (w : World Db)
      → parse raw ≡ valid message
      → ¬ OutOfRange message.suitability_score
      → row_of message.order_id w.committed ≡ none
      → w.answers ≡ []
      → w.confirms ≡ []
      → let (r, w') = on_assess_results parse queue threshold now raw w in
        (r ≡ ok tt)
        × (w'.committed ≡ w.committed)
        × (w'.sent
            ≡ w.sent ++ dead_letter permanent_category (unknown_reason message.order_id) raw ∷ [])
  unfolding on_assess_results
  unknown_order_buried now raw message w p n u a c =
      let (e, d, s, k) = verdict_unknown now message w n u a in
      let (r, d', s') =
        guard_permanent queue parse (handle_verdict threshold now) raw w message
          (unknown_reason message.order_id) p e (k ∙ c) in
      (r, d' ∙ d, rw s at s')
