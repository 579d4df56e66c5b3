-- ===== src/Llm/Subscriber.antt =====
-- llm/app/infrastructure/messaging/subscriber.py.
pub mod Retry
use profi_notifications.Llm.Assess.{later, next_confirm, returned, delivered, World}
use profi_notifications.Prelude.{
  ℕ, Bool, true, false, List, [], ◌∷◌, ◌++◌, Text, text_eq, any, filter, map, is_empty,
  if◌then◌else◌,
}
use profi_notifications.Llm.Domain.{ContractorProfile}
use profi_notifications.Llm.Wire.{Order, ParseResultMessage, dump_message}
use profi_notifications.Llm.Mapping.{order_to_listing, price_raises}
use profi_notifications.Llm.Assess

-- `order.id in retryable`
unfoldable pub is_retryable : List Text → Order → Bool
is_retryable ids order = any (text_eq order.id) ids

-- message.model_copy(update={"orders": failed})
unfoldable pub retry_message : List Text → ParseResultMessage → ParseResultMessage
unfolding is_retryable
retry_message ids message = record message { orders = filter (is_retryable ids) message.orders }

-- The retry publisher; a `false` is an exception, which rejects the message.
unfoldable pub publish_retry : ParseResultMessage → World → Bool × World
publish_retry message w = (
  returned (next_confirm w.confirms),
  record w {
    confirms = later w.confirms;
    retries = delivered (next_confirm w.confirms) (dump_message message) w.retries;
  },
)

unfoldable pub after_batch : ParseResultMessage → List Text × World → Bool × World
unfolding publish_retry retry_message
after_batch message (ids, w) =
    if is_empty ids then (true, w) else publish_retry (retry_message ids message) w

-- Whether order_to_listing raises for some order, before anything is asked.
unfoldable pub listing_raises : List Order → Bool
unfolding price_raises
listing_raises orders = any (λ order. price_raises order.price) orders

-- `true` acknowledges the message, `false` rejects it: RabbitMQ then moves it to `<name>.dlq`.
unfoldable pub on_assess_requests :
    ContractorProfile → ℕ → ParseResultMessage → World → Bool × World
unfolding after_batch listing_raises
on_assess_requests profile threshold message w =
    if listing_raises message.orders
    then (false, w)
    else after_batch message
        (Assess.handle profile threshold (map order_to_listing message.orders) w)
