-- ===== src/OrderCore/Migration/RoundTrip.antt =====
-- The migration backwards.
use profi_notifications.Config.Fields.{some_bind, bind_some}
use mathlib.Core.Path.{sym, subst}
use profi_notifications.Prelude.{
  inr, text_eq_iff, sym, text_eq_refl, refl, inl, [], not, arith, Bool-cases, filter, ◌∷◌, text_eq,
  some, false, true, any, ◌≡◌, List, Bool, Text,
}
use profi_notifications.Prelude.Members.{Each}
use profi_notifications.OrderCore.Migration.{
  pending_index, outbox_table, orders_table, drop_table, downgrade, drop_index, not, has_index,
  filter, text_eq, some, false, true, any, List, has_table, create_index, Text, create_table, Bool,
  Schema, Index, Table, upgrade,
}

-- Every index is on a table of the schema.
abbrev pub IsSchema : Schema → Type 0
IsSchema s = Each (λ (i : Index). has_table i.table s ≡ true) s.indexes

filter-unmet :
    {A : Type 0} (p : A → Bool) (xs : List A) → any p xs ≡ false → filter (λ x. not (p x)) xs ≡ xs
filter-unmet p [] h = refl
filter-unmet p (x ∷ xs) h = ground (arith, h, filter-unmet p xs)

-- no index is on a table that is not there
unindexed :
    (name : Text) (s : Schema) (is : List Index)
    → has_table name s ≡ false
    → Each (λ (i : Index). has_table i.table s ≡ true) is
    → any (λ (i : Index). text_eq name i.table) is ≡ false
unindexed name s [] h e = refl
unindexed name s (i ∷ is) h (e, es) = elim (Bool-cases (text_eq name i.table)) [
  | inl same ↦
      let there = subst (λ n. has_table n s ≡ true) (sym ((text_eq_iff name i.table).0 same)) e in
      absurd (ground (arith, h, there))
  | inr other ↦ ground (arith, other, unindexed name s is h es)
]

IsSchema_lem :
    (t : Table) (s : Schema) (is : List Index)
    → Each (λ (i : Index). has_table i.table s ≡ true) is
    → Each (λ (i : Index). has_table i.table (record s { tables = t ∷ s.tables }) ≡ true) is
IsSchema_lem t s [] e = tt
IsSchema_lem t s (i ∷ is) (e, es) = (ground (arith, e), IsSchema_lem t s is es)

made :
    (t : Table) (s u : Schema)
    → create_table t s ≡ some u
    → (has_table t.name s ≡ false) × (u ≡ record s { tables = t ∷ s.tables })
unfolding create_table
made t s u h = ground (arith, h)

indexed :
    (i : Index) (s u : Schema)
    → create_index i s ≡ some u
    → (has_index i.name s ≡ false) × (u ≡ record s { indexes = i ∷ s.indexes })
unfolding create_index
indexed i s u h = ground (arith, h)

drop-made :
    (t : Table) (s : Schema)
    → IsSchema s
    → has_table t.name s ≡ false
    → drop_table t.name (record s { tables = t ∷ s.tables }) ≡ some s
unfolding drop_table
drop-made t s w h = rw (
  text_eq_refl t.name,
  filter-unmet (λ (u : Table). text_eq t.name u.name) s.tables h,
  filter-unmet (λ (i : Index). text_eq t.name i.table) s.indexes (unindexed t.name s s.indexes h w),
)

drop-indexed :
    (i : Index) (s : Schema)
    → has_index i.name s ≡ false
    → drop_index i.name (record s { indexes = i ∷ s.indexes }) ≡ some s
unfolding drop_index
drop-indexed i s h =
    rw (text_eq_refl i.name, filter-unmet (λ (j : Index). text_eq i.name j.name) s.indexes h)

-- If the migration can be made on a schema whose indexes are on its tables, then it can be taken back,
-- and that leaves the schema as it was, with all other tables and indexes in it.
pub downgrade-upgrade : (s t : Schema) → IsSchema s → upgrade s ≡ some t → downgrade t ≡ some s
unfolding upgrade downgrade
downgrade-upgrade s t w h =
    let (s1, h1, k1) = bind_some _ h in
    let (s2, h2, k2) = bind_some _ k1 in
    let (a, e1) = made orders_table s s1 h1 in
    let (b, e2) = made outbox_table s1 s2 h2 in
    let (c, e3) = indexed pending_index s2 t k2 in
    let w1 = subst IsSchema (sym e1) (IsSchema_lem orders_table s s.indexes w) in
    some_bind _ _
      (subst (λ x. drop_index pending_index.name x ≡ some s2) (sym e3)
        (drop-indexed pending_index s2 c))
      (some_bind _ _
        (subst (λ x. drop_table outbox_table.name x ≡ some s1) (sym e2)
          (drop-made outbox_table s1 w1 b))
        (subst (λ x. drop_table orders_table.name x ≡ some s) (sym e1)
          (drop-made orders_table s w a)))
