-- ===== src/OrderCore/Db/Lookup.antt =====
-- What the statements of the repositories do to the lookup of an order.
use profi_notifications.Prelude.{
  ℕ, ◌≡◌, refl, true, false, Option, none, some, List, [], ◌∷◌, ◌++◌, Text, text_eq, text_eq_iff,
  arith, any, if◌then◌else◌,
}
use profi_notifications.OrderCore.Domain.{OrderStatus}
use profi_notifications.OrderCore.Db.{OrderRow, is_order, find_order, assign, update_orders}

-- The first row found, else the other lookup.
abbrev pub or_else : Option OrderRow → Option OrderRow → Option OrderRow
or_else none o = o
or_else (some row) o = some row

pub find_order-append :
    (src k : Text) (xs ys : List OrderRow)
    → find_order src k (xs ++ ys) ≡ or_else (find_order src k xs) (find_order src k ys)
unfolding find_order
find_order-append src k [] ys = refl
find_order-append src k (x ∷ xs) ys = ground (arith, find_order-append src k xs ys)

pub any-is_order :
    (src k : Text) (xs : List OrderRow)
    → any (is_order src k) xs ≡ (elim (find_order src k xs) [ none ↦ false | some _ ↦ true ])
unfolding find_order
any-is_order src k [] = refl
any-is_order src k (x ∷ xs) = ground (arith, any-is_order src k xs)

-- An update changes the row of its own key only.
pub find_order-update :
    (now : ℕ) (src j : Text) (st : OrderStatus) (score : Option ℕ) (k : Text) (xs : List OrderRow)
    → find_order src k (update_orders now src j st score xs) ≡ (elim (find_order src k xs) [
      | none ↦ none
      | some row ↦ some (if text_eq j k then assign now st score row else row)
    ])
unfolding find_order update_orders is_order assign
find_order-update now src j st score k [] = refl
find_order-update now src j st score k (x ∷ xs) = ground (
  arith,
  find_order-update now src j st score k xs,
  text_eq_iff x.source src,
  text_eq_iff x.external_id j,
  text_eq_iff x.external_id k,
  text_eq_iff j k,
)

pub find_order_key :
    (src k : Text) (xs : List OrderRow) {row : OrderRow}
    → find_order src k xs ≡ some row
    → (row.source ≡ src) × (row.external_id ≡ k)
unfolding find_order is_order
find_order_key src k [] h = ground arith
find_order_key src k (x ∷ xs) {row} h = ground (
  arith,
  find_order_key src k xs {row = row},
  text_eq_iff x.source src,
  text_eq_iff x.external_id k,
)
