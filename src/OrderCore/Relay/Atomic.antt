-- ===== src/OrderCore/Relay/Atomic.antt =====
-- What one round of the relay marks and what it has sent by then.
use profi_notifications.Prelude.{
  ap, refl, inr, sym, ◌∙◌, inl, arith, length, ◌⊎◌, map, Bool, ℕ, ◌≡◌, List, [], ◌∷◌,
}
use profi_notifications.OrderCore.Relay.{
  publish_events, claimed, relay_claimed, pending_event, run_once, relay_events, settle_events,
  length, mark_rows, map, Db, Bool, ℕ, PendingEvent, Message,
}
use profi_notifications.OrderCore.Relay.Sent.{
  publish_events-Delivered, publish_events-Published, Published, Delivered,
}
use profi_notifications.OrderCore.Dto.{err, ok, Result, PendingEvent}
use profi_notifications.OrderCore.Effects.{
  asked, done, next_answer, Answer, continue, pure, answered, Session, write_log, commit, statement,
  World, ◌>>=◌, Message,
}
use profi_notifications.Prelude.Members.{Extends-refl, Extends, In}
use profi_notifications.OrderCore.Db.{Db}
use profi_notifications.OrderCore.Effects.Atomic.{opened, exit_keeps}

abbrev pub ids : List PendingEvent → List ℕ
ids = map (λ (e : PendingEvent). e.id)

abbrev pub AllDelivered : List Message → List PendingEvent → Type 0
AllDelivered sent es = (e : PendingEvent) → In e es → Delivered sent e.destination e.payload

-- What a round that returns has done, and its result.
abbrev pub Counted : ℕ → Db → List PendingEvent → World Db → Result ℕ → Type 0
Counted now old es w (ok n) =
    (n ≡ length es) × ((es ≡ []) ⊎ (w.committed ≡ mark_rows now (ids es) old))
Counted now old es w (err e) = Unit

-- What a round over the events `es` leaves of the tables `old`, and of what was sent before.
pub record Relayed (now : ℕ) (old : Db) (es : List PendingEvent) (sent : List Message)
    (r : Result ℕ) (w : World Db) : Type 0 where
  pub extends : Extends sent w.sent
  pub fate :
      (w.committed ≡ old) ⊎ ((w.committed ≡ mark_rows now (ids es) old) × AllDelivered w.sent es)
  pub counted : Counted now old es w r

-- The same, as the proof goes through the transaction.
record Relaying (now : ℕ) (old : Db) (es : List PendingEvent) (sent : List Message) (r : Result ℕ)
    (w : World Db) : Type 0 where
  extends : Extends sent w.sent
  fate : (w.committed ≡ old) ⊎ ((w.committed ≡ mark_rows now (ids es) old) × AllDelivered w.sent es)
  returned :
      (n : ℕ)
      → r ≡ ok n
      → (n ≡ length es) × ((es ≡ []) ⊎ (w.committed ≡ mark_rows now (ids es) old))

module _ (locked : ℕ → Bool) (batch_size now : ℕ) where
  pub settle_fate :
      (x : PendingEvent) (es : List PendingEvent) (t : Session Db)
      → let (r, t') = settle_events locked batch_size now (x ∷ es) t in
        (t'.world.sent ≡ t.world.sent)
        × ((t'.world.committed ≡ t.world.committed)
            ⊎ (t'.world.committed ≡ mark_rows now (ids (x ∷ es)) t.db))
        × ((n : ℕ)
            → r ≡ ok n
            → (n ≡ length (x ∷ es)) × (t'.world.committed ≡ mark_rows now (ids (x ∷ es)) t.db))
  unfolding settle_events statement commit write_log ◌>>=◌
  settle_fate x es t = (ground arith, ground arith, λ n e. ground arith)

  Published-then_settled :
      (x : PendingEvent) (es : List PendingEvent) (s : Session Db) (out : Result Unit × Session Db)
      → s.db ≡ s.world.committed
      → Published s out.1
      → (out.0 ≡ ok tt → AllDelivered out.1.world.sent (x ∷ es))
      → let (r, t) = continue out.0 (λ _. settle_events locked batch_size now (x ∷ es)) out.1 in
        Relaying now s.db (x ∷ es) s.world.sent r t.world
  Published-then_settled x es s (ok u, t) same p d =
      let (sent, fate, returned) = settle_fate x es t in
      record {
        extends = rw sent p.extends;
        fate = elim fate [
          | inl e ↦ inl (e ∙ p.uncommitted ∙ sym same)
          | inr e ↦ inr (e ∙ ap (mark_rows now (ids (x ∷ es))) p.same_db, rw sent (d refl))
        ];
        returned = λ n e. (
          (returned n e).0,
          inr ((returned n e).1 ∙ ap (mark_rows now (ids (x ∷ es))) p.same_db),
        );
      }
  Published-then_settled x es s (err y, t) same p d = record {
    extends = p.extends;
    fate = inl (p.uncommitted ∙ sym same);
    returned = λ n e. absurd (cc);
  }

  relay_events-Relayed :
      (es : List PendingEvent) (s : Session Db)
      → s.db ≡ s.world.committed
      → let (r, t) = relay_events locked batch_size now es s in
        Relaying now s.db es s.world.sent r t.world
  unfolding relay_events pure ◌>>=◌
  relay_events-Relayed [] s same = record {
    extends = Extends-refl s.world.sent;
    fate = inl (sym same);
    returned = λ n e. (ground arith, inl refl);
  }
  relay_events-Relayed (x ∷ es) s same =
      Published-then_settled x es s (publish_events (x ∷ es) s) same
        (publish_events-Published (x ∷ es) s) (publish_events-Delivered (x ∷ es) s)

  -- The events of a round.
  abbrev pub round : Db → List PendingEvent
  round db = map pending_event (claimed locked batch_size db)

  claim-Relayed :
      (a : Answer) (s : Session Db)
      → s.db ≡ s.world.committed
      → let out = answered a (λ db. (ok (round db), db)) s in
        let (r, t) = continue out.0 (relay_events locked batch_size now) out.1 in
        Relaying now s.db (round s.db) s.world.sent r t.world
  unfolding answered
  claim-Relayed done s same = relay_events-Relayed (round s.db) s same
  claim-Relayed _ s same = record {
    extends = Extends-refl s.world.sent;
    fate = inl (sym same);
    returned = λ n e. absurd (cc);
  }

  run_once-Relaying :
      (w : World Db)
      → let (r, w') = run_once locked batch_size now w in
        Relaying now w.committed (round w.committed) w.sent r w'
  unfolding run_once relay_claimed statement ◌>>=◌
  run_once-Relaying w =
      let (c, s, e) = exit_keeps (relay_claimed locked batch_size now) w in
      let h = claim-Relayed (next_answer w.answers) (asked (opened w)) refl in
      record {
        extends = rw s h.extends;
        fate = rw (c, s) h.fate;
        returned = λ n r. rw c (h.returned n (e n r));
      }

  counted :
      (old : Db) (es : List PendingEvent) (w : World Db) (r : Result ℕ)
      → ((n : ℕ)
          → r ≡ ok n
          → (n ≡ length es) × ((es ≡ []) ⊎ (w.committed ≡ mark_rows now (ids es) old)))
      → Counted now old es w r
  counted old es w (ok n) f = f n refl
  counted old es w (err e) f = tt

  -- After a round of the relay, whatever the broker and the database answer: messages were
  -- only added to those sent; the tables are as before, or they are those with exactly the
  -- claimed events marked as published and the broker has taken the message of each of these;
  -- and if the round returns, it returns the number of the claimed events, and they are
  -- marked or there were none.
  pub run_once-Relayed :
      (w : World Db)
      → let (r, w') = run_once locked batch_size now w in
        Relayed now w.committed (round w.committed) w.sent r w'
  run_once-Relayed w =
      let (r, w') = run_once locked batch_size now w in
      let h = run_once-Relaying w in
      record {
        extends = h.extends;
        fate = h.fate;
        counted = counted w.committed (round w.committed) w' r h.returned;
      }
