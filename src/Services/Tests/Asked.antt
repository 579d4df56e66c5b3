-- ===== src/Services/Tests/Asked.antt =====
-- A batch that order-core-service stores and asks llm about.
use profi_notifications.OrderCore.Effects.{
  ◌>>=◌, pure, close, exit_context, commit, statement, in_transaction, write_log, publish_message,
}
use profi_notifications.OrderCore.Ingest.{
  ingest_order, ingest_orders, handle as ingest, ingest_batch,
}
use profi_notifications.OrderCore.Db.Repositories.{add_assessment_request, insert_new}
use profi_notifications.OrderCore.Db.{
  has_key, outbox_row, insert_event, event_key, insert_order, is_order, order_row, fits_order,
  destination_value,
}
use profi_notifications.OrderCore.Domain.{source_value}
use profi_notifications.OrderCore.Guard.{guard, after_handle}
use profi_notifications.OrderCore.Subscribers.{handle_batch, on_parse_results}
use profi_notifications.OrderCore.Wire.{to_incoming_orders}
use profi_notifications.OrderCore.Relay.Poll.{after_round}
use profi_notifications.OrderCore.Relay.{
  pending_event, relay_claimed, claim_pending, claimed, by_age, is_free, relay_events,
  publish_events, publish_event, publish_known, message_of, settle_events, mark_published, run_once,
}
use profi_notifications.Llm.Wire.{dump_message}
use profi_notifications.OrderCore.Guard.{valid}
use profi_notifications.Prelude.Members.{In}
use profi_notifications.Prelude.Json.{Fields}
use profi_notifications.Prelude.{refl, text_eq, ◌≡◌, inl, false}
use profi_notifications.OrderCore.Tests.{
  a_wiring, batch_world, reach_batch, a_batch_message, an_order_message, first_id,
}
use profi_notifications.OrderCore.System.{Reach, fresh_world, next, relayed}
use profi_notifications.OrderCore.Relay.Poll.{poll_once}
use profi_notifications.OrderCore.Wire.{
  ParseResultMessage, OrderMessage, to_incoming_order, assess_request_payload,
}
use profi_notifications.Services.Requests.{request_readable, requested}
use profi_notifications.OrderCore.Effects.{World, to_assess}
use profi_notifications.OrderCore.Db.{Db}

abbrev asked_world : World Db
asked_world = (poll_once (λ id. false) a_wiring.batch_size 12 batch_world).1

abbrev asked_payload : Fields
asked_payload =
    assess_request_payload (to_incoming_order a_batch_message (an_order_message first_id))

abbrev reach_asked : Reach a_wiring fresh_world asked_world
reach_asked = next reach_batch (relayed (λ id. false) 12 batch_world)

asked_sent : In (to_assess asked_payload) asked_world.sent
unfolding on_parse_results handle_batch guard after_handle ingest ingest_batch ingest_orders
    ingest_order insert_new insert_order is_order order_row fits_order text_eq source_value
    to_incoming_orders add_assessment_request insert_event event_key in_transaction statement commit
    write_log ◌>>=◌ pure has_key outbox_row poll_once after_round run_once relay_claimed
    claim_pending claimed by_age is_free relay_events publish_events publish_event publish_known
    message_of publish_message destination_value settle_events mark_published exit_context close
    pending_event
asked_sent = inl refl

request_readable_example :
    (raw : Fields) × (m : ParseResultMessage) × (o : OrderMessage) × (a_wiring.parse_batch raw
      ≡ valid m)
    × In o m.orders
    × (asked_payload ≡ dump_message (requested m o))
request_readable_example =
    request_readable a_wiring asked_world asked_payload reach_asked asked_sent
