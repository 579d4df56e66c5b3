-- ===== src/OrderCore/Tests.antt =====
-- Runs of order-core-service on two small orders.
mod Witnesses
mod Interleaved
pub mod Configured
use profi_notifications.OrderCore.Ingest.Oversized.{SomeRefused}
use profi_notifications.OrderCore.Relay.Poll.{interval, after_round, poll_once}
use profi_notifications.OrderCore.System.Drained.{relay_drains}
use profi_notifications.OrderCore.Relay.Drained.{unlocked, Answers, run_rounds, waiting_events}
use profi_notifications.OrderCore.Db.Keys.{event_key-injective}
use profi_notifications.OrderCore.Subscribers.Verdicts.{
  unknown_order_buried, score-OutOfRange_returns,
}
use profi_notifications.OrderCore.Guard.Accounts.{guard_accounts, Accounted}
use profi_notifications.OrderCore.Relay.Atomic.{run_once-Relayed, round, Relayed}
use profi_notifications.OrderCore.Wire.Scores.{OutOfRange}
use profi_notifications.OrderCore.Consistency.FirstVerdict.{decided_status}
use profi_notifications.OrderCore.Process.Atomic.{process-IsAtomic}
use profi_notifications.OrderCore.Process.Spec.{store_verdict}
use profi_notifications.OrderCore.Ingest.Spec.{store_orders}
use profi_notifications.OrderCore.Effects.Atomic.{IsAtomic}
use profi_notifications.OrderCore.Ingest.Atomic.{ingest-IsAtomic}
use profi_notifications.OrderCore.Ingest.Redelivery.{
  redeliver-Converges, StoredOnce, Converges, Delivery, redeliver,
}
use profi_notifications.OrderCore.System.Decided.{decided_forever}
use profi_notifications.OrderCore.System.Sound.{Reach-IsSound, IsSound}
use profi_notifications.OrderCore.Relay.{
  relay_events, by_age, claimed, claim_pending, relay_claimed, is_free, run_once,
}
use profi_notifications.OrderCore.Db.Repositories.{
  add_notification, set_status, get, add_assessment_request, insert_new,
}
use profi_notifications.OrderCore.Subscribers.{
  handle_converted, handle_verdict, handle_batch, on_assess_results, on_parse_results,
}
use profi_notifications.OrderCore.Guard.{
  Parsed, permanent_category, invalid_payload, after_handle, guard, valid,
}
use profi_notifications.OrderCore.Dto.{permanent, validation, runtime_error, err, ok, IncomingOrder}
use profi_notifications.OrderCore.Domain.{
  profi, assess_requested, can_apply_assessment, status_of, source_of, decide_notification,
  status_value, source_value, html, notify_requested, AssessmentOutcome,
}
use profi_notifications.OrderCore.Consistency.{requests, notices, empty_db, IsConsistent, row_of}
use profi_notifications.OrderCore.Db.{
  assess_kind, outbox_row, has_key, order_of, read_order, update_orders, update_status, event_key,
  insert_event, fits_order, is_order, find_order, insert_order, assign, order_row, Db, OrderRow,
}
use profi_notifications.OrderCore.Effects.{
  close, exit_context, dead_letter, lost, done, pure, write_log, commit, statement, in_transaction,
  World,
}
use profi_notifications.OrderCore.System.{
  relayed, batch_delivered, here, verdict_delivered, next, Reach, fresh_world, Wiring,
}
use profi_notifications.Prelude.Json.{Fields, end, pos, ℤ}
use profi_notifications.OrderCore.Wire.{
  to_assessment_outcome, to_incoming_orders, to_incoming_order, OrderMessage,
  AssessmentResultMessage, Geo, ParseResultMessage,
}
use profi_notifications.OrderCore.Ingest.{
  ingest_order, ingest_orders, handle as ingest, ingest_batch,
}
use profi_notifications.OrderCore.Process.{
  process_outcome, unknown_reason, apply_decision, process_found, process,
  handle as process_verdict,
}
use profi_notifications.OrderCore.Effects.{◌>>=◌}
use profi_notifications.OrderCore.Guard.{invalid, warned, bury}
use profi_notifications.OrderCore.Effects.{answer_publish, publish_message, message_dead_lettered}
use profi_notifications.Prelude.{
  inl, ◌≤◌, if◌then◌else◌, leb, inr, arith, ◌≢◌, text_eq, false, ◌∷◌, true, refl, [], some, none,
  codes, ℕ, List, Text, ◌≡◌,
}

abbrev pub first_id : Text
first_id = codes "41"

abbrev nowhere : Geo
nowhere = record { remote = none; order_location = none; client_may_come = none }

abbrev pub an_order_message : Text → OrderMessage
an_order_message id = record {
  id = id;
  title = codes "bot";
  description = codes "telegram";
  price = none;
  geo = nowhere;
  client = record { name = codes "A"; tags = [] };
  badges = [];
  schedule = none;
  last_update = pos 17;
  score = 0;
  is_fresh = true;
  is_viewed = false;
  coordinates = none;
}

-- The second order repeats the key of the first.
abbrev pub a_batch_message : ParseResultMessage
a_batch_message = record {
  request_id = codes "r1";
  fetched_at = pos 17;
  total_count = pos 2;
  next_cursor = none;
  orders = an_order_message first_id ∷ an_order_message first_id ∷ [];
}

abbrev a_verdict_message : ℤ → Text → AssessmentResultMessage
a_verdict_message score id = record {
  order_id = id;
  suitability_score = score;
  notification = record {
    text = codes "good";
    parse_mode = some html;
    disable_notification = none;
    disable_web_page_preview = some true;
    message_thread_id = none;
  };
}

abbrev a_verdict : ℕ → AssessmentOutcome
a_verdict score = record {
  order_id = first_id;
  suitability_score = score;
  notification = record {
    text = codes "good";
    parse_mode = some html;
    disable_notification = none;
    disable_web_page_preview = some true;
    message_thread_id = none;
  };
}

abbrev a_batch : List IncomingOrder
a_batch = to_incoming_orders a_batch_message

abbrev pub a_wiring : Wiring
a_wiring = record {
  parse_batch = λ raw. valid a_batch_message;
  parse_verdict = λ raw. valid (a_verdict_message (pos 80) first_id);
  parse_queue = codes "parse.results";
  assess_result_queue = codes "assess.results";
  notify_threshold = 70;
  batch_size = 10;
}

-- The batch is delivered, and then the verdict.
abbrev pub batch_world : World Db
batch_world = (on_parse_results a_wiring.parse_batch a_wiring.parse_queue 5 end fresh_world).1

abbrev after_verdict : World Db
after_verdict =
    (on_assess_results a_wiring.parse_verdict a_wiring.assess_result_queue 70 9 end batch_world).1

abbrev pub stored_row : OrderRow
stored_row = order_row 0 5 (to_incoming_order a_batch_message (an_order_message first_id))

abbrev decided_row : OrderRow
decided_row = assign 9 notify_requested (some 80) stored_row

pub batch_stored : row_of first_id batch_world.committed ≡ some stored_row
unfolding on_parse_results handle_batch guard after_handle ingest ingest_batch ingest_orders
    ingest_order insert_new insert_order find_order is_order order_row fits_order text_eq
    source_value to_incoming_orders to_incoming_order add_assessment_request insert_event event_key
    status_value in_transaction statement commit write_log ◌>>=◌ pure
batch_stored = refl

verdict_stored : row_of first_id after_verdict.committed ≡ some decided_row
unfolding on_parse_results handle_batch guard after_handle ingest ingest_batch ingest_orders
    ingest_order insert_new insert_order find_order is_order order_row fits_order text_eq
    source_value to_incoming_orders to_incoming_order add_assessment_request insert_event event_key
    status_value in_transaction statement commit write_log ◌>>=◌ pure on_assess_results
    handle_verdict handle_converted to_assessment_outcome process_verdict process_outcome process
    process_found apply_decision decide_notification get set_status add_notification update_status
    update_orders assign read_order order_of source_of status_of can_apply_assessment has_key
    outbox_row
verdict_stored = refl

abbrev after_relay : World Db
after_relay = (poll_once (λ id. false) 10 12 after_verdict).1

pub stored_row_waits : stored_row.status ≡ status_value assess_requested
unfolding order_row
stored_row_waits = refl

above_100 : OutOfRange (pos 101)
above_100 = omega arith

within_100 : ¬ OutOfRange (pos 50)
within_100 h = absurd (omega (arith, h))

no_row : row_of (codes "42") empty_db ≡ none
unfolding find_order
no_row = refl

abbrev pub reach_batch : Reach a_wiring fresh_world batch_world
reach_batch = next here (batch_delivered 5 end fresh_world)

abbrev reach_verdict : Reach a_wiring fresh_world after_verdict
reach_verdict = next reach_batch (verdict_delivered 9 end batch_world)

decided_row_differs : decided_row.status ≢ status_value assess_requested
unfolding status_value assign
decided_row_differs = ground (arith)

-- The commit of the first attempt is done, but its answer is lost.
abbrev lost_commit : Delivery
lost_commit = record { time = 5; answers = done ∷ done ∷ done ∷ lost ∷ [] }

abbrev good_try : Delivery
good_try = record { time = 6; answers = [] }

abbrev pub batch_IsConsistent : IsConsistent batch_world.committed
batch_IsConsistent = (Reach-IsSound a_wiring batch_world reach_batch).consistent

abbrev parse_nothing : Fields → Parsed AssessmentResultMessage
parse_nothing raw = invalid (codes "order_id: Field required")

abbrev after_letter : World Db
after_letter = record fresh_world {
  log = message_dead_lettered (codes "assess.results") invalid_payload ∷ [];
  sent = dead_letter invalid_payload (codes "order_id: Field required") end ∷ [];
}

letter_sent :
    guard (codes "assess.results") parse_nothing (handle_verdict 70 9) end fresh_world
    ≡ (ok tt, after_letter)
unfolding guard bury warned publish_message answer_publish
letter_sent = refl

pub batch_answered : Answers batch_world
unfolding on_parse_results handle_batch guard after_handle ingest ingest_batch ingest_orders
    ingest_order insert_new insert_order is_order order_row fits_order text_eq source_value
    to_incoming_orders to_incoming_order add_assessment_request insert_event event_key status_value
    in_transaction statement commit write_log ◌>>=◌ pure has_key outbox_row is_free
batch_answered = (refl, refl)

batch_waits : waiting_events batch_world.committed ≤ 2
unfolding on_parse_results handle_batch guard after_handle ingest ingest_batch ingest_orders
    ingest_order insert_new insert_order is_order order_row fits_order text_eq source_value
    to_incoming_orders to_incoming_order add_assessment_request insert_event event_key status_value
    in_transaction statement commit write_log ◌>>=◌ pure has_key outbox_row is_free
batch_waits = omega (arith)

fresh-Answers : Answers fresh_world
fresh-Answers = (refl, refl)

fresh_pause : (poll_once unlocked 10 12 fresh_world).0 ≡ interval
unfolding poll_once after_round run_once relay_claimed claim_pending claimed by_age relay_events
    in_transaction exit_context close statement ◌>>=◌ pure
fresh_pause = refl

abbrev long_id : Text
long_id =
    codes
      "777777777777777777777777777777777777777777777777777777777777777777777777777777777777777777777777777777777777777777777777777777777"

abbrev long_batch : List IncomingOrder
long_batch =
    to_incoming_orders (record a_batch_message {
      orders = an_order_message first_id ∷ an_order_message long_id ∷ [];
    })

long_batch-SomeRefused : SomeRefused long_batch
unfolding to_incoming_orders to_incoming_order
long_batch-SomeRefused = inr (inr (inr (inl refl)))
