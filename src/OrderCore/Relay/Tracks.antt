-- ===== src/OrderCore/Relay/Tracks.antt =====
-- What a round of the relay does to the invariant of the outbox.
use mathlib.Core.Path.{ap, sym, subst}
use profi_notifications.Prelude.{
  inr, inl, ap, ◌∙◌, Bool-cases, ◌==◌, sym, true, arith, Bool, ℕ, ◌≡◌, List,
}
use profi_notifications.Prelude.Members.{In, In-map, any-In}
use profi_notifications.OrderCore.Relay.{
  PendingEvent, Message, Bool, ℕ, mark_row, mark_rows, is_in, claimed, pending_event,
}
use profi_notifications.OrderCore.Relay.Atomic.{ids, AllDelivered, round}
use profi_notifications.OrderCore.Relay.Marks.{In-claimed}
use profi_notifications.OrderCore.Relay.Sent.{Delivered}
use profi_notifications.OrderCore.Db.{published, Db, OutboxRow}
use profi_notifications.OrderCore.Outbox.{IsTracked}
use profi_notifications.OrderCore.Effects.{Message}
use profi_notifications.OrderCore.Dto.{PendingEvent}

-- The fields that a mark leaves alone.
pub mark_row_keeps :
    (now : ℕ) (is : List ℕ) (r : OutboxRow)
    → ((mark_row now is r).id ≡ r.id)
      × ((mark_row now is r).destination ≡ r.destination)
      × ((mark_row now is r).payload ≡ r.payload)
unfolding mark_row
mark_row_keeps now is r = ground arith

module _ (locked : ℕ → Bool) (limit now : ℕ) (db : Db) (sent : List Message)
    (t : IsTracked db sent) where
  abbrev es : List PendingEvent
  es = round locked limit now db

  -- a row whose id is among those of the round is one of its rows
  row_of_id :
      (r : OutboxRow)
      → In r db.outbox
      → is_in r.id (ids es) ≡ true
      → (e : PendingEvent) × In e es × (e ≡ pending_event r)
  unfolding is_in pending_event
  row_of_id r i h =
      let (k, ik, q) = any-In (λ k. k == r.id) (ids es) h in
      let (e, ie, p) = In-map (λ (e : PendingEvent). e.id) k es ik in
      let (c, ic, pc) = In-map pending_event e (claimed locked limit db) ie in
      let same : c ≡ r =
        t.unique c r (In-claimed locked limit db c ic).0 i (ground (arith, p, q, pc)) in
      (e, ie, rw same at pc)

  marked-Delivered :
      AllDelivered sent es
      → (r : OutboxRow) → In r db.outbox
      → (mark_row now (ids es) r).status ≡ published
      → Delivered sent r.destination r.payload
  unfolding mark_row pending_event
  marked-Delivered d r i h = elim (Bool-cases (is_in r.id (ids es))) [
    | inl hit ↦
        let (e, ie, p) = row_of_id r i hit in
        subst (λ (e : PendingEvent). Delivered sent e.destination e.payload) p (d e ie)
    | inr miss ↦ t.delivered r i (rw (miss, mark_row) at h)
  ]

  pub mark_rows-IsTracked : AllDelivered sent es → IsTracked (mark_rows now (ids es) db) sent
  unfolding mark_rows
  mark_rows-IsTracked d = record {
    below = λ r i.
        let (x, ix, e) = In-map (mark_row now (ids es)) r db.outbox i in
        rw (e, (mark_row_keeps now (ids es) x).0) (t.below x ix);
    unique = λ r r' i i' q.
        let (x, ix, e) = In-map (mark_row now (ids es)) r db.outbox i in
        let (x', ix', e') = In-map (mark_row now (ids es)) r' db.outbox i' in
        let (k, _, _) = mark_row_keeps now (ids es) x in
        let (k', _, _) = mark_row_keeps now (ids es) x' in
        let same : x ≡ x' = t.unique x x' ix ix' (
          sym k
          ∙ ap (λ (r : OutboxRow). r.id) (sym e)
          ∙ q
          ∙ ap (λ (r : OutboxRow). r.id) e'
          ∙ k') in
        e ∙ ap (mark_row now (ids es)) same ∙ sym e';
    dispatched = λ r i.
        let (x, ix, e) = In-map (mark_row now (ids es)) r db.outbox i in
        let (_, d', p') = mark_row_keeps now (ids es) x in rw (e, d', p') (t.dispatched x ix);
    delivered = λ r i h.
        let (x, ix, e) = In-map (mark_row now (ids es)) r db.outbox i in
        let (_, d', p') = mark_row_keeps now (ids es) x in
        rw (e, d', p') (marked-Delivered d x ix (rw e at h));
  }
