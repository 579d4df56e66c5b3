-- ===== src/OrderCore/Db.antt =====
-- order-core-service/app/infrastructure/db/models.py and repositories.py: the two tables, and what
-- the statements of the repositories do to them.
-- PostgreSQL is not modelled beyond what the schema declares: the unique constraints behind
-- `ON CONFLICT DO NOTHING`, and the lengths of the columns, which a longer value makes an error of.
pub mod Repositories
pub mod Keys
pub mod Lookup
pub mod Events
use profi_notifications.Prelude.{
  ℕ, ◌+◌, ◌^◌, Bool, true, ◌&&◌, Option, none, some, List, [], ◌∷◌, ◌++◌, Text, codes, text_eq, any,
  length, ltb, leb, if◌then◌else◌,
}
use profi_notifications.Prelude.Json.{ℤ, pos, negsuc, Fields}
use profi_notifications.OrderCore.Domain.{
  Source, source_value, source_of, OrderStatus, assess_requested, status_value, status_of, Order,
}
use profi_notifications.OrderCore.Dto.{IncomingOrder, Result, ok, err, database_error, value_error}

pub data OutboxDestination : Type 0 where
  assess_request notify : OutboxDestination

unfoldable pub destination_value : OutboxDestination → Text
destination_value assess_request = codes "assess_request"
destination_value notify = codes "notify"

-- A `datetime` is a number.
pub record OrderRow : Type 0 where
  pub id : ℕ
  pub source : Text
  pub external_id : Text
  pub status : Text
  pub payload : Fields
  pub suitability_score : Option ℕ
  pub request_id : Option Text
  pub source_fetched_at : Option ℤ
  pub created_at : ℕ
  pub updated_at : ℕ

pub record OutboxRow : Type 0 where
  pub id : ℕ
  pub aggregate_id : Option ℕ
  pub destination : Text
  pub payload : Fields
  pub dedup_key : Text
  pub status : Text
  pub attempts : ℕ
  pub last_error : Option Text
  pub created_at : ℕ
  pub published_at : Option ℕ

-- The two tables in the order of insertion, and the next `uuid4`, which no row has yet.
pub record Db : Type 0 where
  pub orders : List OrderRow
  pub outbox : List OutboxRow
  pub next_id : ℕ

abbrev pub pending : Text
pending = codes "pending"

abbrev pub published : Text
published = codes "published"

-- WHERE source = … AND external_id = …
unfoldable pub is_order : Text → Text → OrderRow → Bool
is_order source external_id row = text_eq row.source source && text_eq row.external_id external_id

-- The row of a key, if there is one.
unfoldable pub find_order : Text → Text → List OrderRow → Option OrderRow
find_order source external_id [] = none
find_order source external_id (row ∷ rows) =
    if is_order source external_id row then some row else find_order source external_id rows

-- WHERE dedup_key = …
unfoldable pub has_key : Text → OutboxRow → Bool
has_key key row = text_eq row.dedup_key key

unfoldable pub fits_optional : ℕ → Option Text → Bool
fits_optional limit none = true
fits_optional limit (some t) = leb (length t) limit

unfoldable pub fits_bigint : ℤ → Bool
fits_bigint (pos n) = ltb n (2 ^ 63)
fits_bigint (negsuc n) = ltb n (2 ^ 63)

-- String(32), String(128), String(128) and BigInteger. PostgreSQL cuts off spaces beyond the length of
-- a column in silence, which is left out: here every longer text is refused.
unfoldable pub fits_order : IncomingOrder → Bool
unfolding fits_optional fits_bigint
fits_order order =
    leb (length (source_value order.source)) 32
    && leb (length order.external_id) 128
    && fits_optional 128 order.request_id
    && fits_bigint order.fetched_at

unfoldable pub order_row : ℕ → ℕ → IncomingOrder → OrderRow
order_row id now order = record {
  id = id;
  source = source_value order.source;
  external_id = order.external_id;
  status = status_value assess_requested;
  payload = order.payload;
  suitability_score = none;
  request_id = order.request_id;
  source_fetched_at = some order.fetched_at;
  created_at = now;
  updated_at = now;
}

unfoldable pub outbox_row : ℕ → ℕ → OutboxDestination → Text → Fields → OutboxRow
outbox_row id now destination key payload = record {
  id = id;
  aggregate_id = none;
  destination = destination_value destination;
  payload = payload;
  dedup_key = key;
  status = pending;
  attempts = 0;
  last_error = none;
  created_at = now;
  published_at = none;
}

-- A payload comes back as it was stored: what JSONB does to the order of keys and to the form of
-- numbers, and that it refuses NUL characters, is left out.
-- INSERT INTO orders … ON CONFLICT (source, external_id) DO NOTHING RETURNING id
unfoldable pub insert_order : ℕ → IncomingOrder → Db → Result Bool × Db
insert_order now order db =
    if fits_order order
    then if any (is_order (source_value order.source) order.external_id) db.orders
      then (ok Bool.false, db)
      else (
        ok true,
        record db {
          orders = db.orders ++ order_row db.next_id now order ∷ [];
          next_id = db.next_id + 1;
        },
      )
    else (err database_error, db)

-- INSERT INTO outbox … ON CONFLICT (dedup_key) DO NOTHING; the key is a String(200).
unfoldable pub insert_event : ℕ → OutboxDestination → Text → Fields → Db → Result Unit × Db
insert_event now destination key payload db =
    if leb (length key) 200
    then if any (has_key key) db.outbox then (ok tt, db) else (
      ok tt,
      record db {
        outbox = db.outbox ++ outbox_row db.next_id now destination key payload ∷ [];
        next_id = db.next_id + 1;
      },
    )
    else (err database_error, db)

unfoldable pub assign : ℕ → OrderStatus → Option ℕ → OrderRow → OrderRow
assign now status score row = record row {
  status = status_value status;
  suitability_score = score;
  updated_at = now;
}

-- UPDATE orders SET status = …, suitability_score = … WHERE source = … AND external_id = …
unfoldable pub update_orders :
    ℕ → Text → Text → OrderStatus → Option ℕ → List OrderRow → List OrderRow
update_orders now source external_id status score [] = []
update_orders now source external_id status score (row ∷ rows) =
    (if is_order source external_id row then assign now status score row else row)
    ∷ update_orders now source external_id status score rows

-- `scalar_one_or_none` raises on two rows; the unique constraint leaves one at most.
unfoldable pub update_status : ℕ → Text → Text → OrderStatus → Option ℕ → Db → Result Bool × Db
update_status now source external_id status score db = (
  ok (any (is_order source external_id) db.orders),
  record db { orders = update_orders now source external_id status score db.orders },
)

unfoldable pub order_of : OrderRow → Option Source → Option OrderStatus → Result (Option Order)
order_of row (some source) (some status) = ok (
    some (record {
      source = source;
      external_id = row.external_id;
      status = status;
      suitability_score = row.suitability_score;
    }))
order_of row _ _ = err value_error

-- `Source(row.source)` and `OrderStatus(row.status)` raise on a text that names none.
unfoldable pub read_order : Option OrderRow → Result (Option Order)
read_order none = ok none
read_order (some row) = order_of row (source_of row.source) (status_of row.status)

-- f"assess:{source}:{external_id}" and f"notify:{source}:{external_id}"
unfoldable pub event_key : Text → Source → Text → Text
event_key kind source external_id = kind ++ source_value source ++ codes ":" ++ external_id

abbrev pub assess_kind : Text
assess_kind = codes "assess:"

abbrev pub notify_kind : Text
notify_kind = codes "notify:"
