-- ===== src/OrderCore/Relay.antt =====
-- order-core-service/app/application/relay_outbox.py, with the dispatch of
-- app/infrastructure/db/outbox_dispatch.py and the publisher of messaging/event_publisher.py.
pub mod Sent
pub mod Atomic
pub mod Marks
pub mod Tracks
pub mod Origins
pub mod Drained
pub mod Poll
use profi_notifications.Prelude.{
  none, some, Option, Bool, ℕ, List, [], ◌∷◌, map, Text, text_eq, filter, take, length, leb, ◌==◌,
  any, not, ◌&&◌, if◌then◌else◌,
}
use profi_notifications.Prelude.Json.{Fields}
use profi_notifications.OrderCore.Dto.{PendingEvent, Result, ok, err, value_error}
use profi_notifications.OrderCore.Effects.{
  World, Tx, pure, ◌>>=◌, ◌>>◌, write_log, outbox_relayed, Message, to_assess, to_notify,
  publish_message, statement, commit, in_transaction,
}
use profi_notifications.OrderCore.Db.{
  OutboxRow, Db, pending, published, destination_value, assess_request, notify,
}

-- ORDER BY created_at
unfoldable pub insert_by_age : OutboxRow → List OutboxRow → List OutboxRow
insert_by_age row [] = row ∷ []
insert_by_age row (x ∷ rows) =
    let rest = insert_by_age row rows in
    if leb row.created_at x.created_at then row ∷ x ∷ rows else x ∷ rest

unfoldable pub by_age : List OutboxRow → List OutboxRow
unfolding insert_by_age
by_age [] = []
by_age (row ∷ rows) = insert_by_age row (by_age rows)

-- WHERE status = 'pending', and not locked by another relay (SKIP LOCKED)
unfoldable pub is_free : (ℕ → Bool) → OutboxRow → Bool
is_free locked row = text_eq row.status pending && not (locked row.id)

-- The rows that `claim_pending` selects.
unfoldable pub claimed : (ℕ → Bool) → ℕ → Db → List OutboxRow
unfolding by_age is_free
claimed locked limit db = take limit (by_age (filter (is_free locked) db.outbox))

unfoldable pub pending_event : OutboxRow → PendingEvent
pending_event row = record { id = row.id; destination = row.destination; payload = row.payload }

-- id IN ids
unfoldable pub is_in : ℕ → List ℕ → Bool
is_in id ids = any (λ i. i == id) ids

-- UPDATE outbox SET status = 'published', published_at = now() WHERE id IN ids
unfoldable pub mark_row : ℕ → List ℕ → OutboxRow → OutboxRow
mark_row now ids row =
    if is_in row.id ids then record row { status = published; published_at = some now } else row

unfoldable pub mark_rows : ℕ → List ℕ → Db → Db
unfolding mark_row
mark_rows now ids db = record db { outbox = map (mark_row now ids) db.outbox }

-- FastStreamEventPublisher: the transport of a destination
unfoldable pub message_of : Text → Fields → Option Message
message_of destination payload =
    if text_eq destination (destination_value assess_request)
    then some (to_assess payload)
    else if text_eq destination (destination_value notify)
    then some (to_notify payload)
    else none

module _ {D : Type 0} where
  -- A publish inside the context.
  unfoldable pub publish_known : Option Message → Tx D Unit
  publish_known none s = (err value_error, s)
  publish_known (some m) s = let (r, w) = publish_message m s.world in (r, record s { world = w })

  unfoldable pub publish_event : PendingEvent → Tx D Unit
  unfolding publish_known
  publish_event event = publish_known (message_of event.destination event.payload)

  unfoldable pub publish_events : List PendingEvent → Tx D Unit
  unfolding publish_event
  publish_events [] = pure tt
  publish_events (event ∷ events) = do publish_event event; publish_events events

module _ (locked : ℕ → Bool) (batch_size now : ℕ) where
  unfoldable pub claim_pending : ℕ → Tx Db (List PendingEvent)
  claim_pending limit = statement (λ db. (ok (map pending_event (claimed locked limit db)), db))

  -- no statement for an empty list
  unfoldable pub mark_published : List ℕ → Tx Db Unit
  mark_published [] = pure tt
  mark_published (id ∷ ids) = statement (λ db. (ok tt, mark_rows now (id ∷ ids) db))

  -- what follows the last publish
  unfoldable pub settle_events : List PendingEvent → Tx Db ℕ
  unfolding mark_published
  settle_events events = do
    mark_published (map (λ (e : PendingEvent). e.id) events)
    commit
    write_log (outbox_relayed (length events))
    pure (length events)

  unfoldable pub relay_events : List PendingEvent → Tx Db ℕ
  unfolding settle_events
  relay_events [] = pure 0
  relay_events (event ∷ events) = do publish_events (event ∷ events); settle_events (event ∷ events)

  unfoldable pub relay_claimed : Tx Db ℕ
  unfolding relay_events claim_pending
  relay_claimed = do events ← claim_pending batch_size; relay_events events

  -- RelayOutbox.run_once
  unfoldable pub run_once : World Db → Result ℕ × World Db
  run_once = in_transaction relay_claimed
