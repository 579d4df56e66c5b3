-- ===== src/OrderCore/Effects.antt =====
-- What a handler of order-core-service works with: a database session, the structured log, and an
-- environment in which any call to the database may fail.
-- order-core-service/app/infrastructure/db/unit_of_work.py: `async with uow: … await uow.commit()`.
pub mod Atomic
pub mod Publish
use profi_notifications.Prelude.{ℕ, List, [], ◌∷◌, ◌++◌, Text}
use profi_notifications.OrderCore.Domain.{OrderStatus, DecisionReason}
use profi_notifications.Prelude.Json.{Fields}
use profi_notifications.OrderCore.Dto.{Exc, Result, ok, err, database_error, broker_error}

-- How the environment answers a call to the database: it is done, it fails, or it is done and the
-- answer is lost on the way back (which matters for a commit).
pub data Answer : Type 0 where
  done fails lost : Answer

-- One line of the structured log: the event, and the fields that it names.
pub data LogEntry : Type 0 where
  order_ingested order_duplicate : Text → LogEntry
  assessment_ignored : Text → OrderStatus → LogEntry
  notification_requested : Text → ℕ → LogEntry
  order_no_notify : Text → DecisionReason → LogEntry
  outbox_relayed : ℕ → LogEntry
  message_dead_lettered : Text → Text → LogEntry
  outbox_relay_error : LogEntry

-- What the service publishes: to the queue of llm, to the exchange of notifications, and to its
-- own dead-letter queue.
pub data Message : Type 0 where
  to_assess to_notify : Fields → Message
  dead_letter : Text → Text → Fields → Message

-- Outside a handler: what is committed, what has been logged and what RabbitMQ has taken, and how
-- the database and the broker will answer. When the answers run out, every further call is done.
pub record World (D : Type 0) : Type 0 where
  pub committed : D
  pub log : List LogEntry
  pub sent : List Message
  pub answers : List Answer
  pub confirms : List Answer

-- Inside: also what the open transaction sees.
pub record Session (D : Type 0) : Type 0 where
  pub world : World D
  pub db : D

abbrev pub Tx : Type 0 → Type 0 → Type 0
Tx D A = Session D → Result A × Session D

module _ {D A : Type 0} where
  unfoldable pub pure : A → Tx D A
  pure a s = (ok a, s)

  unfoldable pub raise : Exc → Tx D A
  raise e s = (err e, s)

  unfoldable pub lift : Result A → Tx D A
  lift r s = (r, s)

module _ {D A B : Type 0} where
  abbrev pub continue : Result A → (A → Tx D B) → Tx D B
  continue (ok a) f s = f a s
  continue (err e) f s = (err e, s)

  infixl 10 ◌>>=◌ ◌>>◌
  unfoldable pub ◌>>=◌ : Tx D A → (A → Tx D B) → Tx D B
  unfolding pure raise lift
  ◌>>=◌ m f s = let (r, s') = m s in continue r f s'

  abbrev pub ◌>>◌ : Tx D A → Tx D B → Tx D B
  m >> n = m >>= λ _. n

-- The next answer, and the session without it.
abbrev pub next_answer : List Answer → Answer
next_answer [] = done
next_answer (a ∷ rest) = a

abbrev pub later_answers : List Answer → List Answer
later_answers [] = []
later_answers (a ∷ rest) = rest

module _ {D : Type 0} where
  -- self._logger.info(…) and the like
  unfoldable pub write_log : LogEntry → Tx D Unit
  write_log e s = (ok tt, record s { world = record s.world { log = s.world.log ++ e ∷ [] } })

  abbrev pub asked : Session D → Session D
  asked s = record s { world = record s.world { answers = later_answers s.world.answers } }

module _ {D : Type 0} where
  abbrev sending : Message → World D → World D
  sending m w = record w { sent = w.sent ++ m ∷ []; confirms = later_answers w.confirms }

  unfoldable pub answer_publish : Answer → Message → World D → Result Unit × World D
  answer_publish done m w = (ok tt, sending m w)
  answer_publish fails m w = (err broker_error, record w { confirms = later_answers w.confirms })
  answer_publish lost m w = (err broker_error, sending m w)

  -- await publisher.publish(…)
  unfoldable pub publish_message : Message → World D → Result Unit × World D
  unfolding answer_publish
  publish_message m w = answer_publish (next_answer w.confirms) m w

module _ {D A : Type 0} where
  unfoldable pub answered : Answer → (D → Result A × D) → Tx D A
  answered done f s = let (r, d) = f s.db in (r, record s { db = d })
  answered _ f s = (err database_error, s)

  -- await self._session.execute(…): the statement `f` runs on what the transaction sees.
  unfoldable pub statement : (D → Result A × D) → Tx D A
  unfolding answered
  statement f s = answered (next_answer s.world.answers) f (asked s)

unfoldable pub answer_plainly : Answer → Result Unit
answer_plainly done = ok tt
answer_plainly _ = err database_error

module _ {D : Type 0} where
  abbrev committing : Session D → Session D
  committing s = record s { world = record s.world { committed = s.db } }

  unfoldable pub answer_commit : Answer → Tx D Unit
  answer_commit done s = (ok tt, committing s)
  answer_commit fails s = (err database_error, s)
  answer_commit lost s = (err database_error, committing s)

  -- await uow.commit()
  unfoldable pub commit : Tx D Unit
  unfolding answer_commit
  commit s = answer_commit (next_answer s.world.answers) (asked s)

  -- await session.rollback()
  unfoldable pub rollback : Tx D Unit
  unfolding answer_plainly
  rollback s =
      (answer_plainly (next_answer s.world.answers), record (asked s) { db = s.world.committed })

  -- await session.close()
  unfoldable pub close : Tx D Unit
  unfolding answer_plainly
  close s = (answer_plainly (next_answer s.world.answers), asked s)

-- `finally`: an error of `close` takes the place of what was raised before, one of `rollback`
-- the place of the handler's.
unfoldable pub replaced : {A : Type 0} → Result A → Result Unit → Result Unit → Result A
replaced r rolled (err e) = err e
replaced r (err e) (ok _) = err e
replaced r (ok _) (ok _) = r

module _ {D A : Type 0} where
  -- __aexit__: a rollback only if the body raised, and a close.
  unfoldable pub exit_context : Result A → Session D → Result A × World D
  unfolding replaced rollback close
  exit_context (ok a) s = let (closed, s') = close s in (replaced (ok a) (ok tt) closed, s'.world)
  exit_context (err e) s =
      let (rolled, s') = rollback s in
      let (closed, s'') = close s' in (replaced (err e) rolled closed, s''.world)

  -- `async with self._uow_factory() as uow: body`
  unfoldable pub in_transaction : Tx D A → World D → Result A × World D
  unfolding exit_context
  in_transaction body w =
      let (r, s) = body (record { world = w; db = w.committed }) in exit_context r s
