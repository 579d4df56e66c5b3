-- ===== src/Lib.antt =====
-- Verification of the Python services of profi-notifications: order-core-service, the "brain" that
-- keeps the orders and decides on notifications; llm, which has a language model assess them; and
-- scheduler, which asks the parser for new ones.
--
-- The program. At each tick scheduler publishes a command for the parser, which puts batches of
-- orders of profi.ru on the queue parse.results. order-core-service stores each order once and asks
-- llm for an assessment, through an outbox table that a relay publishes. llm answers on
-- assess.results, and puts the orders on which its model failed for the moment into a retry queue.
-- order-core-service applies the first verdict on an order, and asks for a notification if the
-- score reaches a threshold.
--
-- Which file models what (paths from the root of the repository):
--   OrderCore/Domain        order-core-service/app/domain
--   OrderCore/Dto           order-core-service/app/application/dto.py and errors.py
--   OrderCore/Wire          order-core-service/app/infrastructure/messaging/schemas.py, mapping.py
--   OrderCore/Effects       order-core-service/app/infrastructure/db/unit_of_work.py; the log and
--                           the broker
--   OrderCore/Db            order-core-service/app/infrastructure/db/models.py, repositories.py
--   OrderCore/Ports         order-core-service/app/application/ports.py: the interface of the use
--                           cases, which are written over it, and its implementation by SQL
--   OrderCore/Ingest        order-core-service/app/application/ingest_orders.py
--   OrderCore/Process       order-core-service/app/application/process_assessment.py
--   OrderCore/Guard         order-core-service/app/infrastructure/messaging/reliability.py
--   OrderCore/Subscribers   order-core-service/app/infrastructure/messaging/subscribers.py
--   OrderCore/Relay         order-core-service/app/application/relay_outbox.py, with db/
--                           outbox_dispatch.py, messaging/event_publisher.py and
--                           outbox/relay.py of infrastructure
--   OrderCore/System        order-core-service/app/main.py: handlers and relay in any order
--   OrderCore/Consistency   the agreement of the two tables
--   OrderCore/Outbox        the agreement of the outbox and the messages that were sent
--   OrderCore/Requests      the requests for assessments in the outbox
--   OrderCore/Concurrent    process_assessment.py again, cut where another transaction may come in
--   OrderCore/Settings, Topology, App     order-core-service/app/infrastructure/config/settings.py,
--                           messaging/broker.py and order-core-service/app/main.py
--   OrderCore/Migration     order-core-service/alembic/versions/0001_init.py
--   Llm/Domain, Listing, Notification     llm/app/domain
--   Llm/Wire, Mapping, Subscriber         llm/app/infrastructure/messaging
--   Llm/Prompts, Assess     llm/app/infrastructure/llm and llm/app/application/assess_orders.py
--   Llm/Profile, Settings   llm/app/infrastructure/config/profile.py and settings.py
--   Llm/Topology, App       llm/app/infrastructure/messaging/broker.py and llm/app/main.py
--   Scheduler               scheduler/app: command, mapping, use case and metrics
--   Scheduler/Settings, App scheduler/app/infrastructure/config/settings.py, messaging/broker.py,
--                           messaging/scheduling.py and scheduler/app/main.py
--   Config, Broker, Logging what the settings, the topologies and the loggers of the three share
--   Services                what order-core-service and llm publish, as the other of them receives
--                           it, and the queues of all three at one broker
--   Prelude                 texts with the methods of Python's str and its quote, JSON values, lists
--   Tests (of each service) runs of the definitions
-- Child modules hold the proofs and are named for what they prove.
--
-- State and errors of order-core-service. A handler is a function of the `World`: the committed
-- tables, the log, the messages that RabbitMQ took, and how the database and the broker will
-- answer. Every call to one of them is done, fails, or is done while its answer is lost; when the
-- given answers run out, every further call is done. A transaction works on its own copy of the
-- tables until `commit`. An exception is the `err` of a `Result`; a message is acknowledged exactly
-- if its subscriber returns `ok`. The specifications `store_orders` and `store_verdict` say on the
-- tables alone what a batch and a verdict are to do.
--
-- In llm the replies of the model and what becomes of each publication (confirmed, refused, or taken
-- with the confirm lost) are lists in the state; an exception of the client of the model is a
-- constructor for each class that the adapter names. A price with more digits than Python's `int`
-- takes rejects its message before anything is asked.
--
-- Tables are lists of rows in the order of insertion; `ON CONFLICT DO NOTHING` and the lengths of
-- the columns are those of models.py. An id is a number that no row has yet, a time is a number, a
-- text is a list of code points, and a float is its bit pattern, since no code computes with one.
-- Every loop runs over a list. Only the decimal digits of a number use fuel, one unit more than the
-- number, which is enough since each digit divides it by ten.
--
-- Transactions. In OrderCore/System each message is handled whole, one after the other: what is said
-- of sequences of verdicts there and in OrderCore/Process does not speak of verdicts that overlap. In
-- OrderCore/Concurrent any number of transactions of ProcessAssessment have read their order and not
-- yet written, as READ COMMITTED allows: what one of them has read may be out of date when it
-- writes.
--
-- The settings of a service are a function of an environment, the variables by their full names. How
-- pydantic reads a number or a Boolean from a text is a parameter; the bounds of the fields are
-- checked as they are declared. `build_app` gives what main.py hands to the other parts.
--
-- Queues. What RabbitMQ does with a rejected or expired message is read from the arguments of its
-- queue (Broker): the dead-letter exchange (only the default one is modelled), the routing key and the
-- TTL.
--
-- Not modelled: PostgreSQL's silent cut of a text whose characters beyond the length of its column are
-- all spaces (the model refuses every longer text); what JSONB does to a payload (the order of keys,
-- the forms of numbers) and that it refuses NUL characters and NaN: here a payload is read back as it
-- was stored; pydantic's reading of JSON into records (a parameter of the subscribers), the locks
-- of PostgreSQL (which rows another relay holds is a parameter of a round), batches and rounds of the
-- relay that overlap statement by statement, FastStream and taskiq, the printing of a log record as
-- JSON, a variable that holds a whole group of settings as JSON, and the services in Go, Rust and
-- TypeScript.
pub mod Prelude
pub mod Broker
pub mod Logging
pub mod Config
pub mod OrderCore
pub mod Llm
pub mod Scheduler
pub mod Services
