-- ===== src/Broker.antt =====
-- What the services declare at RabbitMQ: the queues, exchanges and publishers of FastStream, with
-- the arguments that infrastructure/messaging/broker.py of each service gives them.
pub mod Names
use profi_notifications.Prelude.{
  ℕ, Bool, true, false, Option, none, some, List, [], ◌∷◌, Text, codes, text_eq, if◌then◌else◌,
}

pub data Argument : Type 0 where
  text : Text → Argument
  number : ℕ → Argument

-- RabbitQueue
pub record Queue : Type 0 where
  pub name : Text
  pub durable : Bool
  pub arguments : List (Text × Argument)

-- RabbitQueue(name, durable=True)
abbrev pub durable_queue : Text → Queue
durable_queue name = record { name = name; durable = true; arguments = [] }

-- A RabbitExchange of type DIRECT.
pub record Exchange : Type 0 where
  pub name : Text
  pub durable : Bool

-- broker.publisher; without an exchange it is the default one, where the routing key is the name of
-- a queue.
pub record Publisher : Type 0 where
  pub exchange : Option Exchange
  pub routing_key : Text
  pub persist : Bool

-- broker.publisher(queue=queue, persist=True)
abbrev pub queue_publisher : Text → Publisher
queue_publisher queue = record { exchange = none; routing_key = queue; persist = true }

-- The value of an argument in the dict.
abbrev pub argument : Text → List (Text × Argument) → Option Argument
argument key [] = none
argument key ((k, v) ∷ arguments) =
    let rest = argument key arguments in if text_eq key k then some v else rest

abbrev pub text_of : Option Argument → Option Text
text_of none = none
text_of (some (text t)) = some t
text_of (some (number n)) = none

abbrev pub number_of : Option Argument → Option ℕ
number_of none = none
number_of (some (text t)) = none
number_of (some (number n)) = some n

abbrev is_empty_text : Option Text → Bool
is_empty_text none = false
is_empty_text (some []) = true
is_empty_text (some (c ∷ t)) = false

-- Whether dead letters go through the default exchange, which gives a message to the queue that its
-- routing key names. The bindings of an exchange with a name are not modelled.
unfoldable pub has_default_dead_letters : Queue → Bool
has_default_dead_letters q =
    is_empty_text (text_of (argument (codes "x-dead-letter-exchange") q.arguments))

-- The queue for what is rejected or expires; without it such a message is dropped.
unfoldable pub dead_letter_queue : Queue → Option Text
unfolding has_default_dead_letters
dead_letter_queue q =
    if has_default_dead_letters q
    then text_of (argument (codes "x-dead-letter-routing-key") q.arguments)
    else none

-- After how many milliseconds a message expires, if it ever does.
unfoldable pub message_ttl : Queue → Option ℕ
message_ttl q = number_of (argument (codes "x-message-ttl") q.arguments)

-- The first of the declarations of a name.
abbrev pub declared_as : Text → List Queue → Option Queue
declared_as name [] = none
declared_as name (q ∷ queues) =
    let rest = declared_as name queues in if text_eq name q.name then some q else rest

abbrev dead_letters_of : Option Queue → Option Text
dead_letters_of none = none
dead_letters_of (some q) = dead_letter_queue q

abbrev ttl_of : Option Queue → Option ℕ
ttl_of none = none
ttl_of (some q) = message_ttl q

-- Where a message that stands in the queue of this name goes if it is rejected or expires.
unfoldable pub next_queue : List Queue → Text → Option Text
next_queue queues name = dead_letters_of (declared_as name queues)

-- When a message that stands in the queue of this name expires.
unfoldable pub expires_after : List Queue → Text → Option ℕ
expires_after queues name = ttl_of (declared_as name queues)
