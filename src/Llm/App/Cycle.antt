-- ===== src/Llm/App/Cycle.antt =====
-- The way of a message through the queues that llm declares.
use mathlib.Core.Option.{none, some-injective}
use profi_notifications.Config.Fields.{bind_some}
use mathlib.Core.Path.{subst}
use profi_notifications.Prelude.{
  refl, none, text_eq-append_left, arith, codes, text_eq, [], text_eq_refl, ◌∷◌, some, ◌≡◌, List, ℕ,
  Text,
}
use profi_notifications.Broker.{
  message_ttl, expires_after, durable_queue, declared_as, Queue, next_queue, dead_letter_queue,
}
use profi_notifications.Broker.Names.{suffix-text_eq}
use profi_notifications.Llm.App.{
  build_retry_publisher, declared_queues, App, Settings, build_app, codes, [], build_result_queue,
  some, build_retry_queue, build_dead_letter_queue, List, ℕ, Text,
}
use profi_notifications.Llm.Topology.{
  build_retry_publisher, build_dead_letter_queue, build_retry_queue, build_result_queue,
  build_result_queue, build_retry_queue, build_input_queue, dlq_name, retry_name,
}

abbrev queues : Text → Text → ℕ → List Queue
queues input result ttl_ms =
    build_input_queue input
    ∷ build_dead_letter_queue input
    ∷ build_retry_queue input ttl_ms
    ∷ build_result_queue result
    ∷ []

module _ (input result : Text) (ttl_ms : ℕ) where
  from_input : next_queue (queues input result ttl_ms) input ≡ some (dlq_name input)
  unfolding next_queue build_input_queue dead_letter_queue text_eq
  from_input = rw (text_eq_refl input)

  from_dlq :
      declared_as (dlq_name input) (queues input result ttl_ms)
      ≡ some (durable_queue (dlq_name input))
  unfolding build_input_queue build_dead_letter_queue
  from_dlq = rw (suffix-text_eq input (codes ".dlq") (ground arith), text_eq_refl (dlq_name input))

  from_retry : next_queue (queues input result ttl_ms) (retry_name input) ≡ some input
  unfolding next_queue build_input_queue build_dead_letter_queue build_retry_queue dead_letter_queue
      text_eq
  from_retry = rw (
    suffix-text_eq input (codes ".retry") (ground arith),
    text_eq-append_left input (codes ".retry") (codes ".dlq"),
    text_eq_refl (retry_name input),
  )

  ttl_retry : expires_after (queues input result ttl_ms) (retry_name input) ≡ some ttl_ms
  unfolding expires_after message_ttl build_input_queue build_dead_letter_queue build_retry_queue
      text_eq
  ttl_retry = rw (
    suffix-text_eq input (codes ".retry") (ground arith),
    text_eq-append_left input (codes ".retry") (codes ".dlq"),
    text_eq_refl (retry_name input),
  )

  ttl_input : expires_after (queues input result ttl_ms) input ≡ none
  unfolding expires_after message_ttl build_input_queue text_eq
  ttl_input = rw (text_eq_refl input)

-- What becomes of a message that the broker moves on.
pub record Returns (s : Settings) (app : App) : Type 0 where
  pub reaches :
      (app.retries.exchange ≡ none) × (app.retries.routing_key ≡ retry_name s.messaging.input_queue)
  pub waits :
      expires_after (declared_queues app) app.retries.routing_key ≡ some s.messaging.retry_ttl_ms
  pub retried : next_queue (declared_queues app) app.retries.routing_key ≡ some app.subscribed.name
  pub stays : expires_after (declared_queues app) app.subscribed.name ≡ none
  pub rejected :
      next_queue (declared_queues app) app.subscribed.name ≡ some (dlq_name s.messaging.input_queue)
  pub rests :
      declared_as (dlq_name s.messaging.input_queue) (declared_queues app)
      ≡ some (durable_queue (dlq_name s.messaging.input_queue))

-- If llm is built from some settings, then its retry publisher gives to `<name>.retry` through the
-- default exchange. Among the queues that llm declares, a message of this one expires after the TTL
-- of the settings, and then goes through the default exchange to the queue of its subscriber; there
-- it never expires, and if it is rejected it goes to `<name>.dlq`; and that one is declared,
-- durable and without a further way.
pub retry-Returns : (s : Settings) (app : App) → build_app s ≡ some app → Returns s app
unfolding build_app declared_queues build_retry_publisher build_input_queue
retry-Returns s app h =
    let (_, _, h1) = bind_some _ h in
    let m = s.messaging in
    subst (Returns s) (some-injective _ _ h1) (record {
      reaches = (refl, refl);
      waits = ttl_retry m.input_queue m.result_queue m.retry_ttl_ms;
      retried = from_retry m.input_queue m.result_queue m.retry_ttl_ms;
      stays = ttl_input m.input_queue m.result_queue m.retry_ttl_ms;
      rejected = from_input m.input_queue m.result_queue m.retry_ttl_ms;
      rests = from_dlq m.input_queue m.result_queue m.retry_ttl_ms;
    })
