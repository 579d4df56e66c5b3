-- ===== src/Services/Tests.antt =====
-- A verdict of llm on one order, at order-core-service.
mod Reader
mod Queues
mod Asked
use profi_notifications.OrderCore.Process
use profi_notifications.Services.Tests.Reader.{read_verdict, read_verdict-ReadsVerdicts}
use profi_notifications.OrderCore.Tests.{
  batch_world, stored_row, batch_IsConsistent, batch_stored, stored_row_waits, batch_answered,
}
use profi_notifications.OrderCore.Consistency.{row_of, notices}
use profi_notifications.OrderCore.Consistency.FirstVerdict.{decided_status}
use profi_notifications.OrderCore.Db.{assign}
use profi_notifications.OrderCore.Dto.{ok}
use profi_notifications.Prelude.{leb, if◌then◌else◌}
use profi_notifications.Llm.Listing.{Listing}
use profi_notifications.Llm.Domain.{Assessment}
use profi_notifications.Llm.Notification.{build_notification}
use profi_notifications.Llm.Wire.{dump_verdict, from_result, from_command, build_result}
use profi_notifications.OrderCore.Domain.{html}
use profi_notifications.OrderCore.Guard.{Parsed}
use profi_notifications.OrderCore.Subscribers.{on_assess_results}
use profi_notifications.OrderCore.Wire.{AssessmentResultMessage}
use profi_notifications.Services.{published_verdict, received, arrived}
use profi_notifications.Prelude.Json.{Fields, field, end, str, int, obj, bool}
use profi_notifications.Prelude.{◌≡◌, refl, true, false, some, none, codes, [], arith}
use profi_notifications.Services.{verdict_arrives}

abbrev a_listing : Listing
a_listing = record {
  id = codes "41";
  title = codes "bot";
  description = codes "telegram";
  budget = none;
  is_remote = true;
  location = none;
  client_tags = [];
}

abbrev an_assessment : Assessment
an_assessment = record {
  summary = codes "A bot";
  suitability_score = 80;
  unsupported_hits = [];
  is_rejected_type = false;
  matched_strong = [];
  matched_working = [];
  rationale = [];
}

verdict_arrives_example :
    let (r, w') =
      on_assess_results read_verdict
        (codes "assess.results")
        70
        9
        (published_verdict a_listing an_assessment)
        batch_world in
    (r ≡ ok tt)
    × (w' ≡ (Process.handle 70 9 (arrived a_listing an_assessment) batch_world).1)
    × (row_of (codes "41") w'.committed
        ≡ some (assign 9 (decided_status (leb 70 80)) (some 80) stored_row))
    × (notices (codes "41") w'.committed ≡ (if leb 70 80 then 1 else 0))
verdict_arrives_example =
    verdict_arrives read_verdict (codes "assess.results") 70 9 a_listing an_assessment batch_world
      stored_row read_verdict-ReadsVerdicts (omega arith) batch_IsConsistent batch_stored
      stored_row_waits batch_answered.0
