-- ===== src/OrderCore/Ingest/Oversized.antt =====
-- A batch with an order that does not fit the columns of its row.
use profi_notifications.OrderCore.Db.Repositories.{insert_new}
use profi_notifications.OrderCore.Ports.Sql.{sql_ports}
use profi_notifications.OrderCore.Effects.Atomic.{opened, exit_keeps}
use profi_notifications.OrderCore.Ingest.Redelivery.{Delivery, attempt, redeliver, retry}
use profi_notifications.OrderCore.Db.Repositories.{add_assessment_request, insert_new}
use profi_notifications.OrderCore.Effects.{
  in_transaction, commit, continue, answered, write_log, World, Session, statement, ◌>>=◌,
}
use profi_notifications.OrderCore.Dto.{database_error, Exc, err, ok, IncomingOrder, Result}
use profi_notifications.OrderCore.Db.{insert_event, insert_order, fits_order, Db}
use profi_notifications.OrderCore.Db.{fits_bigint, fits_optional}
use profi_notifications.Prelude.{
  Option, none, some, Text, Bool, zero, suc, not, ◌||◌, ◌==◌, true, ◌<◌, length, refl, ◌∙◌, arith,
  [], sym, ◌⊎◌, false, ◌≡◌, inr, inl, ◌∷◌, List, ℕ,
}
use profi_notifications.OrderCore.Ingest.{
  ingest_batch, handle, ◌∷◌, IncomingOrder, Result, ◌>>=◌, ℕ, Db, List, ingest_order, ingest_orders,
}

-- Some order of the batch does not fit.
abbrev pub SomeUnfit : List IncomingOrder → Type 0
SomeUnfit [] = ⊥
SomeUnfit (o ∷ batch) = (fits_order o ≡ false) ⊎ SomeUnfit batch

-- A character other than a space stands behind the first n: PostgreSQL cuts spaces off in silence,
-- and refuses every other text that is too long for its column.
abbrev pub has_excess : ℕ → Text → Bool
has_excess n [] = false
has_excess zero (c ∷ t) = not (c == 32) || has_excess zero t
has_excess (suc n) (c ∷ t) = has_excess n t

abbrev pub optional_excess : ℕ → Option Text → Bool
optional_excess n none = false
optional_excess n (some t) = has_excess n t

-- PostgreSQL refuses the row of some order of the batch.
abbrev pub SomeRefused : List IncomingOrder → Type 0
SomeRefused [] = ⊥
SomeRefused (o ∷ batch) =
    (has_excess 128 o.external_id ≡ true)
    ⊎ (optional_excess 128 o.request_id ≡ true)
    ⊎ (fits_bigint o.fetched_at ≡ false)
    ⊎ SomeRefused batch

excess_long : (n : ℕ) (t : Text) → has_excess n t ≡ true → n < length t
excess_long n [] h = ground arith
excess_long zero (c ∷ t) h = ground arith
excess_long (suc n) (c ∷ t) h = ground (arith, excess_long n t h)

refused_unfit : (batch : List IncomingOrder) → SomeRefused batch → SomeUnfit batch
unfolding fits_order fits_optional
refused_unfit [] r = absurd r
refused_unfit (o ∷ batch) (inl e) = inl (ground (arith, excess_long 128 o.external_id e))
refused_unfit (o ∷ batch) (inr (inl e)) = inl (request o.request_id e)
  where
    request :
        (id : Option Text)
        → optional_excess 128 id ≡ true
        → fits_order (record o { request_id = id }) ≡ false
    request none e = ground arith
    request (some t) e = ground (arith, excess_long 128 t e)
refused_unfit (o ∷ batch) (inr (inr (inl e))) = inl (ground (arith, e))
refused_unfit (o ∷ batch) (inr (inr (inr r))) = inr (refused_unfit batch r)

-- It raised, and committed nothing.
abbrev pub Refused : {A : Type 0} → Db → Result A × World Db → Type 0
Refused old (ok a, w) = ⊥
Refused old (err e, w) = w.committed ≡ old

module _ (now : ℕ) where
  ingest_order_unfit :
      (o : IncomingOrder) (s : Session Db)
      → fits_order o ≡ false
      → (e : Exc) × ((ingest_order (sql_ports now) o s).0 ≡ err e)
  unfolding ingest_order ◌>>=◌ statement insert_new insert_order answered
  ingest_order_unfit o s f = (database_error, ground (arith))

  ingest_order_uncommitted :
      (o : IncomingOrder) (s : Session Db)
      → (ingest_order (sql_ports now) o s).1.world.committed ≡ s.world.committed
  unfolding ingest_order ◌>>=◌ statement write_log insert_order insert_event insert_new
      add_assessment_request answered
  ingest_order_uncommitted o s = ground arith

  ingest_orders_unfit :
      (batch : List IncomingOrder) (s : Session Db)
      → SomeUnfit batch
      → let (r, t) = ingest_orders (sql_ports now) batch s in Refused s.world.committed (r, t.world)
  unfolding ingest_orders ◌>>=◌
  ingest_orders_unfit [] s u = absurd u
  ingest_orders_unfit (o ∷ batch) s (inl f) =
      let (e, p) = ingest_order_unfit o s f in rw p (ingest_order_uncommitted o s)
  ingest_orders_unfit (o ∷ batch) s (inr u) =
      first (ingest_order (sql_ports now) o s) (ingest_order_uncommitted o s)
        (λ t. ingest_orders_unfit batch t u)
    where
      first :
          (out : Result Unit × Session Db)
          → out.1.world.committed ≡ s.world.committed
          → ((t : Session Db)
              → let (r, t') = ingest_orders (sql_ports now) batch t in
                Refused t.world.committed (r, t'.world))
          → let (r, t) = continue out.0 (λ _. ingest_orders (sql_ports now) batch) out.1 in
            Refused s.world.committed (r, t.world)
      first (ok u, t) c rest = rw (sym c) (rest t)
      first (err e, t) c rest = c

Refused-from :
    (old : Db) (out : Result Unit × World Db) (x : Result Unit × Session Db)
    → out.1.committed ≡ x.1.world.committed
    → ((a : Unit) → out.0 ≡ ok a → x.0 ≡ ok a)
    → Refused old (x.0, x.1.world)
    → Refused old out
Refused-from old (ok a, w) (ok b, t) c k r = absurd r
Refused-from old (ok a, w) (err e, t) c k r = absurd (cc (k a refl))
Refused-from old (err x, w) (ok b, t) c k r = absurd r
Refused-from old (err x, w) (err e, t) c k r = c ∙ r

Refused-commit :
    (old : Db) (out : Result Unit × Session Db)
    → Refused old (out.0, out.1.world)
    → let (r, t) = continue out.0 (λ _. commit) out.1 in Refused old (r, t.world)
Refused-commit old (ok a, t) r = absurd r
Refused-commit old (err e, t) r = r

ingest-Refused :
    (now : ℕ) (batch : List IncomingOrder) (w : World Db)
    → SomeUnfit batch
    → Refused w.committed (handle now batch w)
unfolding handle ingest_batch ◌>>=◌
ingest-Refused now batch w u =
    let body = λ (s : Session Db).
      continue (ingest_orders (sql_ports now) batch s).0 (λ _. commit)
        (ingest_orders (sql_ports now) batch s).1 in
    let (c, _, k) = exit_keeps body w in
    Refused-from w.committed (in_transaction body w) (body (opened w)) c k (
      Refused-commit w.committed (ingest_orders (sql_ports now) batch (opened w))
        (ingest_orders_unfit now batch (opened w) u))

module _ (batch : List IncomingOrder) (u : SomeUnfit batch) where
  Refused-again :
      (old : Db) (again : World Db → Result Unit × World Db) (out : Result Unit × World Db)
      → Refused old out
      → ((w : World Db) → Refused w.committed (again w))
      → Refused old (retry batch again out)
  Refused-again old again (ok a, w) r k = absurd r
  Refused-again old again (err e, w) r k = rw (sym r) (k w)

  never_returns :
      (d : Delivery) (ds : List Delivery) (w : World Db)
      → Refused w.committed (redeliver batch d ds w)
  unfolding redeliver attempt
  never_returns d [] w = ingest-Refused d.time batch (record w { answers = d.answers }) u
  never_returns d (d' ∷ ds) w =
      Refused-again w.committed (redeliver batch d' ds) (attempt batch w d)
        (ingest-Refused d.time batch (record w { answers = d.answers }) u) (never_returns d' ds)

-- If in a batch the id or the request id of some order has a character other than a space behind
-- its first 128, or its fetched_at is no 64-bit integer, then no attempt to deliver the batch
-- returns, however often it is made and whatever the database answers, and the committed tables
-- stay as they are.
pub oversized_never :
    (batch : List IncomingOrder) (d : Delivery) (ds : List Delivery) (w : World Db)
    → SomeRefused batch
    → Refused w.committed (redeliver batch d ds w)
oversized_never batch d ds w r = never_returns batch (refused_unfit batch r) d ds w
