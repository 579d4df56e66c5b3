-- ===== src/OrderCore/Relay/Marks.antt =====
-- What the mark of a round does to the outbox.
use profi_notifications.Prelude.{
  filter, refl, inr, [], true, inl, Bool, arith, ℕ, ◌⊎◌, ◌∷◌, ◌≡◌, List, Text, map,
}
use profi_notifications.Prelude.Members.{In-take, In-filter, In}
use profi_notifications.OrderCore.Relay.{
  filter, Bool, ℕ, ◌∷◌, mark_row, mark_rows, claimed, by_age, insert_by_age, is_free,
}
use profi_notifications.OrderCore.Db.{Db, OutboxRow, has_key}
use profi_notifications.OrderCore.Db.Events.{events}
use profi_notifications.OrderCore.Consistency.{IsConsistent}

-- A mark changes neither the orders nor the number of events of a key.
pub events-mark :
    (now : ℕ) (is : List ℕ) (key : Text) (rows : List OutboxRow)
    → events key (map (mark_row now is) rows) ≡ events key rows
unfolding mark_row has_key
events-mark now is key [] = refl
events-mark now is key (r ∷ rows) = ground (arith, events-mark now is key rows)

pub mark_rows-IsConsistent :
    (now : ℕ) (is : List ℕ) (db : Db) → IsConsistent db → IsConsistent (mark_rows now is db)
unfolding mark_rows
mark_rows-IsConsistent now is db c = record { agrees = λ k. simp events-mark (c.agrees k) }

In-insert_by_age :
    (r row : OutboxRow) (rows : List OutboxRow)
    → In r (insert_by_age row rows)
    → (r ≡ row) ⊎ In r rows
unfolding insert_by_age
In-insert_by_age r row [] h = h
In-insert_by_age r row (x ∷ rows) h = ground (arith, In-insert_by_age r row rows)

In-by_age : (r : OutboxRow) (rows : List OutboxRow) → In r (by_age rows) → In r rows
unfolding by_age
In-by_age r [] h = h
In-by_age r (row ∷ rows) h = elim (In-insert_by_age r row (by_age rows) h) [
  | inl e ↦ inl e
  | inr i ↦ inr (In-by_age r rows i)
]

-- A claimed row is a row of the table that waits and that no other relay holds.
pub In-claimed :
    (locked : ℕ → Bool) (limit : ℕ) (db : Db) (r : OutboxRow)
    → In r (claimed locked limit db)
    → In r db.outbox × (is_free locked r ≡ true)
unfolding claimed
In-claimed locked limit db r i = In-filter (is_free locked) r db.outbox (
    In-by_age r (filter (is_free locked) db.outbox)
      (In-take r limit (by_age (filter (is_free locked) db.outbox)) i))
