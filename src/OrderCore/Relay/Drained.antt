-- ===== src/OrderCore/Relay/Drained.antt =====
-- The rounds of one relay, with a database and a broker that answer.
use mathlib.Core.Path.{subst}
use profi_notifications.OrderCore.Relay.Marks.{In-claimed}
use profi_notifications.OrderCore.Relay.Atomic.{ids, Counted, run_once-Relayed, round}
use profi_notifications.OrderCore.Outbox.{IsTracked}
use profi_notifications.OrderCore.Effects.{
  write_log, close, commit, Session, answer_publish, exit_context, statement, publish_message, pure,
  in_transaction, ◌>>=◌,
}
use profi_notifications.OrderCore.Dto.{ok, PendingEvent}
use profi_notifications.Prelude.Members.{In-map, In}
use profi_notifications.OrderCore.Db.{Db, OutboxRow}
use profi_notifications.Prelude.{
  ◌⊎◌, ◌-◌, length, some, inr, ◌∙◌, ap, sym, inl, refl, ◌<◌, not, arith, take, ◌∷◌, true, [], ◌&&◌,
  ◌≤◌, false, map, text_eq, filter, ◌≢◌, ◌≡◌, zero, List, suc, Bool, count, ℕ,
}
use profi_notifications.OrderCore.Relay.{
  mark_rows, length, some, mark_published, message_of, claim_pending, publish_known, settle_events,
  ◌>>=◌, Message, publish_event, relay_events, relay_claimed, publish_events, PendingEvent,
  pending_event, not, is_in, ◌∷◌, take, [], filter, map, text_eq, World, is_free, Bool, List,
  mark_row, Db, ℕ, claimed, by_age, OutboxRow, insert_by_age, run_once,
}

abbrev pub unlocked : ℕ → Bool
unlocked id = false

-- The number of events that wait.
abbrev pub waiting_events : Db → ℕ
waiting_events db = count (is_free unlocked) db.outbox

-- `rounds` rounds at the times that `clock` gives.
abbrev pub run_rounds : ℕ → (ℕ → ℕ) → ℕ → World Db → World Db
run_rounds batch_size clock zero w = w
run_rounds batch_size clock (suc rounds) w =
    run_rounds batch_size clock rounds (run_once unlocked batch_size (clock rounds) w).1

mark_row_waits :
    (now : ℕ) (is : List ℕ) (r : OutboxRow)
    → is_free unlocked (mark_row now is r) ≡ (is_free unlocked r && not (is_in r.id is))
unfolding mark_row is_free text_eq
mark_row_waits now is r = ground arith

-- A mark lets no further event wait.
count-mark :
    (now : ℕ) (is : List ℕ) (rows : List OutboxRow)
    → count (is_free unlocked) (map (mark_row now is) rows) ≤ count (is_free unlocked) rows
count-mark now is [] = omega arith
count-mark now is (r ∷ rows) = ground (arith, count-mark now is rows, mark_row_waits now is r)

count-mark_less :
    (now : ℕ) (is : List ℕ) (r : OutboxRow) (rows : List OutboxRow)
    → In r rows
    → is_free unlocked r ≡ true
    → is_in r.id is ≡ true
    → count (is_free unlocked) (map (mark_row now is) rows) < count (is_free unlocked) rows
count-mark_less now is r [] i f m = absurd i
count-mark_less now is r (x ∷ rows) (inl e) f m = ground (
  arith,
  count-mark now is rows,
  mark_row_waits now is x,
  sym (ap (is_free unlocked) e) ∙ f,
  sym (ap (λ (y : OutboxRow). is_in y.id is) e) ∙ m,
)
count-mark_less now is r (x ∷ rows) (inr i) f m =
    ground (arith, count-mark_less now is r rows i f m, mark_row_waits now is x)

insert_by_age_some : (r : OutboxRow) (rows : List OutboxRow) → insert_by_age r rows ≢ []
unfolding insert_by_age
insert_by_age_some r [] = ground arith
insert_by_age_some r (x ∷ rows) = ground arith

by_age_empty : (rows : List OutboxRow) → by_age rows ≡ [] → rows ≡ []
unfolding by_age insert_by_age
by_age_empty [] h = refl
by_age_empty (r ∷ rows) h = ground (arith, insert_by_age_some r (by_age rows))

filter_empty :
    (p : OutboxRow → Bool) (rows : List OutboxRow) → filter p rows ≡ [] → count p rows ≡ 0
filter_empty p [] h = refl
filter_empty p (r ∷ rows) h = ground (arith, filter_empty p rows)

-- A round that claims nothing leaves nothing that waits.
pub claimed_empty :
    (limit : ℕ) (db : Db) → claimed unlocked (suc limit) db ≡ [] → waiting_events db ≡ 0
unfolding claimed
claimed_empty limit db h = filter_empty (is_free unlocked) db.outbox (
    by_age_empty (filter (is_free unlocked) db.outbox)
      (take_empty (by_age (filter (is_free unlocked) db.outbox)) h))
  where
    take_empty : (rows : List OutboxRow) → take (suc limit) rows ≡ [] → rows ≡ []
    take_empty [] h = refl
    take_empty (r ∷ rows) h = absurd (cc)

abbrev AllKnown : List PendingEvent → Type 0
AllKnown es =
    (e : PendingEvent) → In e es → (m : Message) × (message_of e.destination e.payload ≡ some m)

-- The database and the broker answer every call.
abbrev pub Answers : World Db → Type 0
Answers w = (w.answers ≡ []) × (w.confirms ≡ [])

publish_event_total :
    (e : PendingEvent) (m : Message) (s : Session Db)
    → message_of e.destination e.payload ≡ some m
    → Answers s.world
    → ((publish_event e s).0 ≡ ok tt) × Answers (publish_event e s).1.world
unfolding publish_event publish_known publish_message answer_publish
publish_event_total e m s k a = rw k (ground (arith, a))

publish_events_total :
    (es : List PendingEvent) (s : Session Db)
    → AllKnown es
    → Answers s.world
    → ((publish_events es s).0 ≡ ok tt) × Answers (publish_events es s).1.world
unfolding publish_events ◌>>=◌ pure
publish_events_total [] s k a = (refl, a)
publish_events_total (e ∷ es) s k a =
    let (m, p) = k e (inl refl) in
    let one = publish_event_total e m s p a in
    ground (arith, one, publish_events_total es (publish_event e s).1 (λ x i. k x (inr i)))

relay_events_total :
    (batch_size now : ℕ) (es : List PendingEvent) (s : Session Db)
    → AllKnown es
    → Answers s.world
    → ((relay_events unlocked batch_size now es s).0 ≡ ok (length es))
      × Answers (relay_events unlocked batch_size now es s).1.world
unfolding relay_events settle_events mark_published statement commit write_log ◌>>=◌ pure
relay_events_total batch_size now [] s k a = (refl, a)
relay_events_total batch_size now (e ∷ es) s k a =
    ground (arith, publish_events_total (e ∷ es) s k a)

round_known :
    (limit now : ℕ) (w : World Db)
    → IsTracked w.committed w.sent
    → AllKnown (round unlocked limit now w.committed)
unfolding pending_event
round_known limit now w t e i =
    let (r, ir, p) = In-map pending_event e (claimed unlocked limit w.committed) i in
    let (m, q) = t.dispatched r (In-claimed unlocked limit w.committed r ir).0 in (m, rw p q)

pub run_once_total :
    (limit now : ℕ) (w : World Db)
    → IsTracked w.committed w.sent
    → Answers w
    → let (r, w') = run_once unlocked limit now w in
      (r ≡ ok (length (round unlocked limit now w.committed))) × Answers w'
unfolding run_once relay_claimed claim_pending in_transaction exit_context close statement ◌>>=◌
run_once_total limit now w t a = ground (
  arith,
  a,
  relay_events_total limit now (round unlocked limit now w.committed)
      (record { world = w; db = w.committed }) (round_known limit now w t),
)

marked_waits :
    (limit now : ℕ) (w : World Db) (r : OutboxRow) (rs : List OutboxRow)
    → claimed unlocked limit w.committed ≡ r ∷ rs
    → waiting_events (mark_rows now (ids (round unlocked limit now w.committed)) w.committed)
      < waiting_events w.committed
unfolding mark_rows pending_event is_in
marked_waits limit now w r rs c =
    let (i, f) =
      In-claimed unlocked limit w.committed r
        (subst (λ (l : List OutboxRow). In r l) (sym c) (inl refl)) in
    count-mark_less now (ids (round unlocked limit now w.committed)) r w.committed.outbox i f
      (rw c (ground (arith)))

list_cases :
    (l : List OutboxRow) → (l ≡ []) ⊎ ((r : OutboxRow) × (rs : List OutboxRow) × (l ≡ r ∷ rs))
list_cases [] = inl refl
list_cases (r ∷ rs) = inr (r, rs, refl)

never_more :
    (limit now : ℕ) (w : World Db)
    → waiting_events (run_once unlocked limit now w).1.committed ≤ waiting_events w.committed
unfolding mark_rows
never_more limit now w = elim (run_once-Relayed unlocked limit now w).fate [
  | inl e ↦ rw e (omega arith)
  | inr (e, d) ↦
      rw e (count-mark now (ids (round unlocked limit now w.committed)) w.committed.outbox)
]

-- A round leaves fewer events that wait, as long as there are any.
pub round_progress :
    (limit now : ℕ) (w : World Db)
    → IsTracked w.committed w.sent
    → Answers w
    → waiting_events (run_once unlocked (suc limit) now w).1.committed
      ≤ waiting_events w.committed - 1
round_progress limit now w t a = elim (list_cases (claimed unlocked (suc limit) w.committed)) [
  | inl e ↦ omega (arith, claimed_empty limit w.committed e, never_more (suc limit) now w)
  | inr (r, rs, e) ↦
      let out = run_once unlocked (suc limit) now w in
      let (done, _) = run_once_total (suc limit) now w t a in
      let h : Counted now w.committed (round unlocked (suc limit) now w.committed) out.1
          (ok (length (round unlocked (suc limit) now w.committed))) =
        subst (Counted now w.committed (round unlocked (suc limit) now w.committed) out.1) done
          (run_once-Relayed unlocked (suc limit) now w).counted in
      elim (h.1) [
        | inl none_claimed ↦ absurd (ground (arith, none_claimed, e))
        | inr marked ↦ rw marked (omega (arith, marked_waits (suc limit) now w r rs e))
      ]
]
