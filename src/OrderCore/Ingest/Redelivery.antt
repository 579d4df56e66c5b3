-- ===== src/OrderCore/Ingest/Redelivery.antt =====
-- A batch that RabbitMQ delivers again until an attempt returns (NACK_ON_ERROR).
use profi_notifications.Prelude.{ℕ, ◌≡◌, ◌∙◌, ap, ◌⊎◌, inl, inr, List, [], ◌∷◌}
use profi_notifications.OrderCore.Dto.{IncomingOrder, Result, ok, err}
use profi_notifications.OrderCore.Effects.{World, Answer}
use profi_notifications.OrderCore.Effects.Atomic.{IsAtomic}
use profi_notifications.OrderCore.Db.{Db}
use profi_notifications.OrderCore.Ingest.{handle}
use profi_notifications.OrderCore.Ingest.Spec.{store_orders, store_orders_idem}
use profi_notifications.OrderCore.Ingest.Atomic.{ingest-IsAtomic}

-- One attempt: when it begins, and how the database answers in it.
pub record Delivery : Type 0 where
  pub time : ℕ
  pub answers : List Answer

module _ (batch : List IncomingOrder) where
  unfoldable pub attempt : World Db → Delivery → Result Unit × World Db
  attempt w d = handle d.time batch (record w { answers = d.answers })

  -- A further attempt is made only if the one before raised.
  abbrev pub retry :
      (World Db → Result Unit × World Db) → Result Unit × World Db → Result Unit × World Db
  retry again (ok u, w) = (ok u, w)
  retry again (err e, w) = again w

  unfoldable pub redeliver : Delivery → List Delivery → World Db → Result Unit × World Db
  unfolding attempt
  redeliver d [] w = attempt w d
  redeliver d (d' ∷ ds) w = retry (redeliver d' ds) (attempt w d)

  abbrev pub StoredOnce : Db → Db → Type 0
  StoredOnce old new = (t : ℕ) × (new ≡ store_orders t batch old)

  abbrev pub Converges : Db → Result Unit × World Db → Type 0
  Converges old (ok _, w) = StoredOnce old w.committed
  Converges old (err _, w) = (w.committed ≡ old) ⊎ StoredOnce old w.committed

  atomic-Converges :
      (old mid : Db) (t : ℕ) (out : Result Unit × World Db)
      → IsAtomic mid (store_orders t batch mid) out
      → (mid ≡ old) ⊎ StoredOnce old mid
      → Converges old out
  atomic-Converges old mid t (ok u, w) a (inl e) = (t, a ∙ ap (store_orders t batch) e)
  atomic-Converges old mid t (ok u, w) a (inr (t', e)) =
      (t', a ∙ ap (store_orders t batch) e ∙ store_orders_idem t t' batch old)
  atomic-Converges old mid t (err x, w) (inl a) (inl e) = inl (a ∙ e)
  atomic-Converges old mid t (err x, w) (inl a) (inr (t', e)) = inr (t', a ∙ e)
  atomic-Converges old mid t (err x, w) (inr a) (inl e) = inr (t, a ∙ ap (store_orders t batch) e)
  atomic-Converges old mid t (err x, w) (inr a) (inr (t', e)) =
      inr (t', a ∙ ap (store_orders t batch) e ∙ store_orders_idem t t' batch old)

  attempt-Converges :
      (old : Db) (d : Delivery) (w : World Db)
      → (w.committed ≡ old) ⊎ StoredOnce old w.committed
      → Converges old (attempt w d)
  unfolding attempt
  attempt-Converges old d w h =
      atomic-Converges old w.committed d.time
        (handle d.time batch (record w { answers = d.answers }))
        (ingest-IsAtomic d.time batch (record w { answers = d.answers })) h

  retry-Converges :
      (old : Db) (again : World Db → Result Unit × World Db) (out : Result Unit × World Db)
      → Converges old out
      → ((w : World Db)
          → (w.committed ≡ old) ⊎ StoredOnce old w.committed
          → Converges old (again w))
      → Converges old (retry again out)
  retry-Converges old again (ok u, w) c h = c
  retry-Converges old again (err e, w) c h = h w c

  redeliver-Converges_from :
      (old : Db) (d : Delivery) (ds : List Delivery) (w : World Db)
      → (w.committed ≡ old) ⊎ StoredOnce old w.committed
      → Converges old (redeliver d ds w)
  unfolding redeliver
  redeliver-Converges_from old d [] w h = attempt-Converges old d w h
  redeliver-Converges_from old d (d' ∷ ds) w h =
      retry-Converges old (redeliver d' ds) (attempt w d) (attempt-Converges old d w h)
        (redeliver-Converges_from old d' ds)

  -- However often a batch is delivered, and whatever the database answers: after an attempt
  -- that returned, the tables are those of storing the batch once into the tables before; if
  -- all attempts raised, they are these or the tables before.
  pub redeliver-Converges :
      (d : Delivery) (ds : List Delivery) (w : World Db) → Converges w.committed (redeliver d ds w)
  redeliver-Converges d ds w = redeliver-Converges_from w.committed d ds w (inl (λ i. w.committed))

  -- Some attempt is one in which the database answers every call.
  abbrev pub Recovers : Delivery → List Delivery → Type 0
  Recovers d [] = d.answers ≡ []
  Recovers d (d' ∷ ds) = (d.answers ≡ []) ⊎ Recovers d' ds
