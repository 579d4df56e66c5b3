-- ===== src/OrderCore/Migration.antt =====
-- order-core-service/alembic/versions/0001_init.py, and the tables of models.py that it makes.
-- A schema is what PostgreSQL holds: its tables, with their constraints, and its indexes. A statement
-- fails, `none`, where a name is taken that it makes, or not there that it drops.
pub mod RoundTrip
use profi_notifications.Prelude.{
  ℕ, Bool, true, false, ◌||◌, not, any, filter, map, Option, none, some, List, [], ◌∷◌, ◌++◌, Text,
  codes, text_eq, if◌then◌else◌,
}
use profi_notifications.Config.{◌>>=◌}

pub data ColumnType : Type 0 where
  uuid jsonb integer big_integer long_text timestamp_tz : ColumnType
  string : ℕ → ColumnType

-- server_default
pub data Default : Type 0 where
  now : Default
  value : Text → Default

pub record Column : Type 0 where
  pub name : Text
  pub type : ColumnType
  pub nullable : Bool
  pub default : Option Default

pub record Unique : Type 0 where
  pub name : Text
  pub columns : List Text

pub record Table : Type 0 where
  pub name : Text
  pub columns : List Column
  pub primary_key : List Text
  pub unique : List Unique

pub record Index : Type 0 where
  pub name : Text
  pub table : Text
  pub columns : List Text

pub record Schema : Type 0 where
  pub tables : List Table
  pub indexes : List Index

abbrev pub has_table : Text → Schema → Bool
has_table name s = any (λ (t : Table). text_eq name t.name) s.tables

abbrev pub has_index : Text → Schema → Bool
has_index name s = any (λ (i : Index). text_eq name i.name) s.indexes

-- A unique constraint has an index of its name, and tables and indexes share their names.
abbrev pub is_taken : Schema → Text → Bool
is_taken s name =
    has_table name s
    || has_index name s
    || any (λ (t : Table). any (λ (u : Unique). text_eq name u.name) t.unique) s.tables

unfoldable pub create_table : Table → Schema → Option Schema
create_table t s =
    if any (is_taken s) (t.name ∷ map (λ (u : Unique). u.name) t.unique)
    then none
    else some (record s { tables = t ∷ s.tables })

unfoldable pub create_index : Index → Schema → Option Schema
create_index i s =
    if is_taken s i.name || not (has_table i.table s)
    then none
    else some (record s { indexes = i ∷ s.indexes })

unfoldable pub drop_index : Text → Schema → Option Schema
drop_index name s =
    if has_index name s
    then some (record s { indexes = filter (λ (i : Index). not (text_eq name i.name)) s.indexes })
    else none

-- with the indexes on it
unfoldable pub drop_table : Text → Schema → Option Schema
drop_table name s =
    if has_table name s
    then some (record {
      tables = filter (λ (t : Table). not (text_eq name t.name)) s.tables;
      indexes = filter (λ (i : Index). not (text_eq name i.table)) s.indexes;
    })
    else none

abbrev column : Text → ColumnType → Column
column name type = record { name = name; type = type; nullable = false; default = none }

abbrev optional : Text → ColumnType → Column
optional name type = record { name = name; type = type; nullable = true; default = none }

abbrev defaulted : Text → ColumnType → Default → Column
defaulted name type d = record { name = name; type = type; nullable = false; default = some d }

abbrev pub orders_table : Table
orders_table = record {
  name = codes "orders";
  columns =
      column (codes "id") uuid
      ∷ column (codes "source") (string 32)
      ∷ column (codes "external_id") (string 128)
      ∷ column (codes "status") (string 32)
      ∷ column (codes "payload") jsonb
      ∷ optional (codes "suitability_score") integer
      ∷ optional (codes "request_id") (string 128)
      ∷ optional (codes "source_fetched_at") big_integer
      ∷ defaulted (codes "created_at") timestamp_tz now
      ∷ defaulted (codes "updated_at") timestamp_tz now
      ∷ [];
  primary_key = codes "id" ∷ [];
  unique =
      record {
        name = codes "uq_orders_source_external_id";
        columns = codes "source" ∷ codes "external_id" ∷ [];
      }
      ∷ [];
}

abbrev pub outbox_table : Table
outbox_table = record {
  name = codes "outbox";
  columns =
      column (codes "id") uuid
      ∷ optional (codes "aggregate_id") uuid
      ∷ column (codes "destination") (string 32)
      ∷ column (codes "payload") jsonb
      ∷ column (codes "dedup_key") (string 200)
      ∷ defaulted (codes "status") (string 16) (value (codes "'pending'"))
      ∷ defaulted (codes "attempts") integer (value (codes "0"))
      ∷ optional (codes "last_error") long_text
      ∷ defaulted (codes "created_at") timestamp_tz now
      ∷ optional (codes "published_at") timestamp_tz
      ∷ [];
  primary_key = codes "id" ∷ [];
  unique = record { name = codes "uq_outbox_dedup_key"; columns = codes "dedup_key" ∷ [] } ∷ [];
}

abbrev pub pending_index : Index
pending_index = record {
  name = codes "ix_outbox_status_created_at";
  table = codes "outbox";
  columns = codes "status" ∷ codes "created_at" ∷ [];
}

unfoldable pub upgrade : Schema → Option Schema
upgrade s = create_table orders_table s >>= λ s.
    create_table outbox_table s >>= λ s. create_index pending_index s

unfoldable pub downgrade : Schema → Option Schema
downgrade s = drop_index (codes "ix_outbox_status_created_at") s >>= λ s.
    drop_table (codes "outbox") s >>= λ s. drop_table (codes "orders") s
