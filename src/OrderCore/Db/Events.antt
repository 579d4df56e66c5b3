-- ===== src/OrderCore/Db/Events.antt =====
-- What the statements do to the number of events of a key.
use profi_notifications.Prelude.{
  ℕ, ◌≤◌, ◌≡◌, refl, not, ◌&&◌, List, [], ◌∷◌, Text, text_eq, text_eq_iff, arith, any, count,
  count-append, length, ◌==◌, if◌then◌else◌,
}
use profi_notifications.Prelude.Json.{Fields}
use profi_notifications.OrderCore.Db.{
  OutboxDestination, OutboxRow, Db, has_key, insert_event, outbox_row,
}

-- The number of events of a key.
abbrev pub events : Text → List OutboxRow → ℕ
events key = count (has_key key)

pub any-events :
    (key : Text) (rows : List OutboxRow) → any (has_key key) rows ≡ not (events key rows == 0)
any-events key [] = refl
any-events key (x ∷ rows) = ground (arith, any-events key rows)

-- An event is added only if its key has none.
pub events-insert :
    (now : ℕ) (d : OutboxDestination) (key : Text) (payload : Fields) (db : Db) (j : Text)
    → length key ≤ 200
    → events j (insert_event now d key payload db).1.outbox
      ≡ (if (events key db.outbox == 0) && text_eq key j then 1 else events j db.outbox)
unfolding insert_event outbox_row has_key
events-insert now d key payload db j h = ground (
  arith,
  any-events key db.outbox,
  text_eq_iff key j,
  count-append (has_key j) db.outbox (outbox_row db.next_id now d key payload ∷ []),
)
