-- ===== src/Services.antt =====
-- How llm and order-core-service fit together on the queue assess.results.
-- How order-core-service reads a payload is pydantic's: that it reads the fields of its schema by their
-- names is a hypothesis (Services/Payloads).
pub mod Payloads
pub mod Topology
pub mod Requests
mod Tests
use profi_notifications.OrderCore.Process
use profi_notifications.OrderCore.Wire.{parse_mode_value}
use profi_notifications.OrderCore.Process.Decides.{verdict_decides}
use profi_notifications.OrderCore.Consistency.{IsConsistent, row_of, notices}
use profi_notifications.OrderCore.Consistency.FirstVerdict.{decided_status}
use profi_notifications.OrderCore.Db.{OrderRow, assign}
use profi_notifications.OrderCore.Domain.{status_value, assess_requested}
use profi_notifications.Services.Payloads.{Spells, SpellsNotification, ReadsVerdicts}
use profi_notifications.Llm.Notification.{build_notification}
use profi_notifications.Prelude.{if◌then◌else◌, arith, [], leb, text_eq}
use profi_notifications.Llm.Listing.{Listing}
use profi_notifications.Llm.Domain.{Assessment}
use profi_notifications.Llm.Notification.{build_notification}
use profi_notifications.OrderCore.Effects.{World}
use profi_notifications.OrderCore.Db.{Db}
use profi_notifications.OrderCore.Dto.{err, Result, ok}
use profi_notifications.OrderCore.Guard.{Parsed, valid, guard, after_handle}
use profi_notifications.OrderCore.Subscribers.{on_assess_results, handle_verdict, handle_converted}
use profi_notifications.OrderCore.Wire.{
  to_assessment_outcome, outcome_of, checked_score, to_command,
}
use profi_notifications.Prelude.Json.{pos, Fields}
use profi_notifications.Prelude.{ap, ◌∙◌, ℕ, ◌≤◌, ◌≡◌, refl, true, some, none, Text, le→leb}
use profi_notifications.Llm.Wire.{from_result, build_result, dump_verdict}
use profi_notifications.OrderCore.Wire.{AssessmentResultMessage}
use profi_notifications.OrderCore.Domain.{html, AssessmentOutcome}

-- The message as order-core-service reads it, with the fields of the same names.
abbrev pub received : Listing → Assessment → AssessmentResultMessage
received listing a = record {
  order_id = listing.id;
  suitability_score = pos a.suitability_score;
  notification = record {
    text = (build_notification listing a).text;
    parse_mode = some html;
    disable_notification = none;
    disable_web_page_preview = some true;
    message_thread_id = none;
  };
}

-- The payload that llm publishes for an order and its assessment.
abbrev pub published_verdict : Listing → Assessment → Fields
published_verdict listing a = dump_verdict (from_result (build_result listing a))

abbrev pub arrived : Listing → Assessment → AssessmentOutcome
arrived listing a = record {
  order_id = listing.id;
  suitability_score = a.suitability_score;
  notification = record {
    text = (build_notification listing a).text;
    parse_mode = some html;
    disable_notification = none;
    disable_web_page_preview = some true;
    message_thread_id = none;
  };
}

received_outcome :
    (listing : Listing) (a : Assessment)
    → a.suitability_score ≤ 100
    → to_assessment_outcome (received listing a) ≡ ok (arrived listing a)
unfolding to_assessment_outcome outcome_of checked_score to_command
received_outcome listing a h = rw (le→leb a.suitability_score 100 h) refl

guard_valid :
    {M : Type 0} (queue : Text) (parse : Fields → Parsed M)
    (handle : M → World Db → Result Unit × World Db) (raw : Fields) (m : M) (w : World Db)
    → parse raw ≡ valid m
    → guard queue parse handle raw w ≡ after_handle queue raw (handle m w)
unfolding guard
guard_valid queue parse handle raw m w p = rw (p, guard) refl

acknowledged :
    (queue : Text) (raw : Fields) (out : Result Unit × World Db)
    → out.0 ≡ ok tt
    → after_handle queue raw out ≡ out
unfolding after_handle
acknowledged queue raw (ok u, w) e = refl
acknowledged queue raw (err x, w) e = ground arith

verdict_handled :
    (threshold now : ℕ) (listing : Listing) (a : Assessment) (w : World Db)
    → a.suitability_score ≤ 100
    → handle_verdict threshold now (received listing a) w
      ≡ Process.handle threshold now (arrived listing a) w
unfolding handle_verdict handle_converted
verdict_handled threshold now listing a w h = rw (received_outcome listing a h) refl

-- The payload of llm has every field under the name that order-core-service's schema gives it.
published-Spells :
    (listing : Listing) (a : Assessment) → Spells (published_verdict listing a) (received listing a)
unfolding dump_verdict from_result build_result text_eq build_notification parse_mode_value
published-Spells listing a = record {
  order_id = refl;
  suitability_score = refl;
  inner = _;
  notification = refl;
  spelled = record {
    text = refl;
    parse_mode = refl;
    disable_notification = (refl, refl);
    disable_web_page_preview = refl;
    message_thread_id = (refl, refl);
  };
}

-- Let `model_validate` of order-core-service read every payload that has the fields of its schema,
-- under their names or aliases, as the message with these values. If the score lies in 0 to 100,
-- the tables are consistent, the order of the verdict has the status assess_requested and the
-- database answers, then the subscriber acknowledges the payload that llm publishes, having done
-- what ProcessAssessment.handle does with the order's id, the score and the text of llm's
-- notification; the committed row has the score and the status notify_requested or no_notify by
-- order-core-service's threshold, and the order has one notification in the first case, else none.
pub verdict_arrives :
    (parse : Fields → Parsed AssessmentResultMessage) (queue : Text) (threshold now : ℕ)
    (listing : Listing) (a : Assessment) (w : World Db) (row : OrderRow)
    → ReadsVerdicts parse
    → a.suitability_score ≤ 100
    → IsConsistent w.committed
    → row_of listing.id w.committed ≡ some row
    → row.status ≡ status_value assess_requested
    → w.answers ≡ []
    → let (r, w') = on_assess_results parse queue threshold now (published_verdict listing a) w in
      let b = leb threshold a.suitability_score in
      (r ≡ ok tt)
      × (w' ≡ (Process.handle threshold now (arrived listing a) w).1)
      × (row_of listing.id w'.committed
          ≡ some (assign now (decided_status b) (some a.suitability_score) row))
      × (notices listing.id w'.committed ≡ (if b then 1 else 0))
unfolding on_assess_results
verdict_arrives parse queue threshold now listing a w row p h c at s e =
    let raw = published_verdict listing a in
    let out = Process.handle threshold now (arrived listing a) w in
    let (r, written, noticed) = verdict_decides threshold now (arrived listing a) w row c at s e in
    let same : guard queue parse (handle_verdict threshold now) raw w ≡ out =
      guard_valid queue parse (handle_verdict threshold now) raw (received listing a) w
        (p.reads raw (received listing a) (published-Spells listing a))
      ∙ ap (after_handle queue raw) (verdict_handled threshold now listing a w h)
      ∙ acknowledged queue raw out r in
    rw same (r, refl, written, noticed)
