-- ===== src/OrderCore/Relay/Origins.antt =====
-- Where the messages come from that the relay publishes.
use mathlib.Core.Path.{subst}
use profi_notifications.Prelude.{
  refl, Option, none, some, List, [], ◌∷◌, ◌++◌, ◌≡◌, ◌⊎◌, inl, inr, ℕ, Bool,
}
use profi_notifications.Prelude.Members.{In, In-append, In-map}
use profi_notifications.OrderCore.Dto.{PendingEvent, Result, ok, err}
use profi_notifications.OrderCore.Effects.{
  statement, pure, Message, Session, World, Answer, done, continue, answered, asked, next_answer,
  publish_message, ◌>>=◌,
}
use profi_notifications.OrderCore.Effects.Atomic.{opened, exit_keeps}
use profi_notifications.OrderCore.Effects.Publish.{sent-publish_any}
use profi_notifications.OrderCore.Db.{Db, OutboxRow}
use profi_notifications.OrderCore.Relay.{
  claimed, pending_event, publish_known, publish_event, publish_events, relay_events, settle_events,
  relay_claimed, run_once, message_of,
}
use profi_notifications.OrderCore.Relay.Atomic.{round, settle_fate}
use profi_notifications.OrderCore.Relay.Marks.{In-claimed}

-- The message of one of the events.
abbrev pub Produced : List PendingEvent → Message → Type 0
Produced es m = (e : PendingEvent) × In e es × (message_of e.destination e.payload ≡ some m)

-- Every message that was sent later was sent before, or is that of one of the events.
abbrev pub From : List PendingEvent → List Message → List Message → Type 0
From es before after = (m : Message) → In m after → In m before ⊎ Produced es m

sent-From :
    (x : PendingEvent) (es : List PendingEvent) (before after : List Message) (k : Message)
    → message_of x.destination x.payload ≡ some k
    → (after ≡ before) ⊎ (after ≡ before ++ k ∷ [])
    → From (x ∷ es) before after
sent-From x es before after k p (inl e) m i = inl (subst (In m) e i)
sent-From x es before after k p (inr e) m i =
    elim (In-append m before (k ∷ []) (subst (In m) e i)) [
      | inl old ↦ inl old
      | inr (inl q) ↦ inr (x, inl refl, rw q p)
      | inr (inr no_more) ↦ absurd no_more
    ]

-- the events behind the first one
later-From :
    (x : PendingEvent) (es : List PendingEvent) (a b c : List Message)
    → From (x ∷ es) a b
    → From es b c
    → From (x ∷ es) a c
later-From x es a b c f g m i = elim (g m i) [ inl j ↦ f m j | inr (e, j, p) ↦ inr (e, inr j, p) ]

module _ {D : Type 0} where
  publish_known-From :
      (x : PendingEvent) (es : List PendingEvent) (o : Option Message) (s : Session D)
      → message_of x.destination x.payload ≡ o
      → From (x ∷ es) s.world.sent (publish_known o s).1.world.sent
  unfolding publish_known
  publish_known-From x es none s p m i = inl i
  publish_known-From x es (some k) s p m i =
      sent-From x es s.world.sent (publish_message k s.world).1.sent k p
        (sent-publish_any k s.world) m i

  continue-From :
      (x : PendingEvent) (es : List PendingEvent) (s : Session D) (out : Result Unit × Session D)
      → From (x ∷ es) s.world.sent out.1.world.sent
      → ((t : Session D) → From es t.world.sent (publish_events es t).1.world.sent)
      → From (x ∷ es) s.world.sent (continue out.0 (λ _. publish_events es) out.1).1.world.sent
  continue-From x es s (ok u, t) f g =
      later-From x es s.world.sent t.world.sent (publish_events es t).1.world.sent f (g t)
  continue-From x es s (err e, t) f g = f

  pub publish_events-From :
      (es : List PendingEvent) (s : Session D)
      → From es s.world.sent (publish_events es s).1.world.sent
  unfolding publish_events publish_event ◌>>=◌
  publish_events-From [] s = λ m i. inl i
  publish_events-From (x ∷ es) s =
      continue-From x es s (publish_known (message_of x.destination x.payload) s)
        (publish_known-From x es (message_of x.destination x.payload) s refl)
        (publish_events-From es)

module _ (locked : ℕ → Bool) (batch_size now : ℕ) where
  settled-From :
      (x : PendingEvent) (es : List PendingEvent) (before : List Message)
      (out : Result Unit × Session Db)
      → From (x ∷ es) before out.1.world.sent
      → From
          (x ∷ es)
          before
          (continue out.0 (λ _. settle_events locked batch_size now (x ∷ es)) out.1).1.world.sent
  settled-From x es before (ok u, t) f =
      λ m i. f m (subst (In m) (settle_fate locked batch_size now x es t).0 i)
  settled-From x es before (err e, t) f = f

  relay_events-From :
      (es : List PendingEvent) (s : Session Db)
      → From es s.world.sent (relay_events locked batch_size now es s).1.world.sent
  unfolding relay_events ◌>>=◌ pure
  relay_events-From [] s = λ m i. inl i
  relay_events-From (x ∷ es) s =
      settled-From x es s.world.sent (publish_events (x ∷ es) s) (publish_events-From (x ∷ es) s)

  claim-From :
      (a : Answer) (s : Session Db)
      → let out = answered a (λ db. (ok (round locked batch_size now db), db)) s in
        From
          (round locked batch_size now s.db)
          s.world.sent
          (continue out.0 (relay_events locked batch_size now) out.1).1.world.sent
  unfolding answered
  claim-From done s = relay_events-From (round locked batch_size now s.db) s
  claim-From _ s = λ m i. inl i

  -- After a round, every message was sent before, or is that of a row of the outbox.
  pub run_once-From :
      (w : World Db) (m : Message)
      → In m (run_once locked batch_size now w).1.sent
      → In m w.sent
        ⊎ ((r : OutboxRow) × In r w.committed.outbox
            × (message_of r.destination r.payload ≡ some m))
  unfolding run_once relay_claimed statement ◌>>=◌ pending_event
  run_once-From w m i =
      let (_, sent, _) = exit_keeps (relay_claimed locked batch_size now) w in
      elim (claim-From (next_answer w.answers) (asked (opened w)) m (subst (In m) sent i)) [
        | inl old ↦ inl old
        | inr (e, j, p) ↦
            let (r, k, q) = In-map pending_event e (claimed locked batch_size w.committed) j in
            inr (r, (In-claimed locked batch_size w.committed r k).0, rw q at p)
      ]
