-- ===== src/OrderCore/Relay/Sent.antt =====
-- What the relay publishes, whatever the broker and the database answer.
use mathlib.Core.Path.{ap, subst}
use profi_notifications.Prelude.{
  ap, refl, none, append-nil, sym, ◌∙◌, inr, ◌++◌, inl, ◌⊎◌, some, Text, Option, ◌≡◌, List, [], ◌∷◌,
}
use profi_notifications.Prelude.Members.{
  In, In-append_left, In-append_right, Extends, Extends-refl, Extends-trans,
}
use profi_notifications.OrderCore.Relay.{
  Fields, some, Text, Message, PendingEvent, ◌>>=◌, Option, publish_events, publish_event,
  publish_known, message_of,
}
use profi_notifications.OrderCore.Effects.{continue, Tx, publish_message, Message, Session, ◌>>=◌}
use profi_notifications.OrderCore.Dto.{err, Result, ok, PendingEvent}
use profi_notifications.Prelude.Json.{Fields}
use profi_notifications.OrderCore.Effects.Publish.{
  sent-publish, sent-publish_any, committed-publish,
}

-- The broker has the message of an event.
abbrev pub Delivered : List Message → Text → Fields → Type 0
Delivered sent destination payload =
    (m : Message) × (message_of destination payload ≡ some m) × In m sent

pub Delivered-Extends :
    (a b : List Message) (d : Text) (p : Fields) → Extends a b → Delivered a d p → Delivered b d p
Delivered-Extends a b d p (more, e) (m, k, i) = (m, k, rw e (In-append_left m a more i))

module _ {D : Type 0} where
  -- What a part of the relay that only publishes does to its session.
  pub record Published (s s' : Session D) : Type 0 where
    pub same_db : s'.db ≡ s.db
    pub uncommitted : s'.world.committed ≡ s.world.committed
    pub extends : Extends s.world.sent s'.world.sent

  publish_known-Published : (o : Option Message) (s : Session D) → Published s (publish_known o s).1
  unfolding publish_known
  publish_known-Published none s = record {
    same_db = refl;
    uncommitted = refl;
    extends = Extends-refl s.world.sent;
  }
  publish_known-Published (some m) s = record {
    same_db = refl;
    uncommitted = committed-publish m s.world;
    extends = extended (sent-publish_any m s.world);
  }
    where
      extended :
          ((publish_message m s.world).1.sent ≡ s.world.sent)
            ⊎ ((publish_message m s.world).1.sent ≡ s.world.sent ++ m ∷ [])
          → Extends s.world.sent (publish_message m s.world).1.sent
      extended (inl e) = ([], e ∙ sym (append-nil s.world.sent))
      extended (inr e) = (m ∷ [], e)

  publish_known-In :
      (o : Option Message) (s : Session D)
      → (publish_known o s).0 ≡ ok tt
      → (m : Message) × (o ≡ some m) × In m (publish_known o s).1.world.sent
  unfolding publish_known
  publish_known-In none s h = absurd (cc)
  publish_known-In (some m) s h =
      (m, refl, rw (sent-publish m s.world h) (In-append_right m s.world.sent (m ∷ []) (inl refl)))

  Published-trans : (a b c : Session D) → Published a b → Published b c → Published a c
  Published-trans a b c p q = record {
    same_db = q.same_db ∙ p.same_db;
    uncommitted = q.uncommitted ∙ p.uncommitted;
    extends = Extends-trans a.world.sent b.world.sent c.world.sent p.extends q.extends;
  }

  continue-Published :
      (r : Result Unit) (f : Unit → Tx D Unit) (s s' : Session D)
      → Published s s'
      → ((t : Session D) → Published t (f tt t).1)
      → Published s (continue r f s').1
  continue-Published (ok u) f s s' p q = Published-trans s s' (f tt s').1 p (q s')
  continue-Published (err e) f s s' p q = p

  pub publish_events-Published :
      (es : List PendingEvent) (s : Session D) → Published s (publish_events es s).1
  unfolding publish_events publish_event ◌>>=◌
  publish_events-Published [] s = record {
    same_db = refl;
    uncommitted = refl;
    extends = Extends-refl s.world.sent;
  }
  publish_events-Published (e ∷ es) s =
      continue-Published (publish_known (message_of e.destination e.payload) s).0
        (λ _. publish_events es) s (publish_known (message_of e.destination e.payload) s).1
        (publish_known-Published (message_of e.destination e.payload) s)
        (publish_events-Published es)

  -- the first publish of a run that raised nothing, then the others
  first_then :
      (es : List PendingEvent) (s : Session D) (x e : PendingEvent) (out : Result Unit × Session D)
      → publish_known (message_of x.destination x.payload) s ≡ out
      → (continue out.0 (λ _. publish_events es) out.1).0 ≡ ok tt
      → ((t : Session D)
          → (publish_events es t).0 ≡ ok tt
          → In e es
          → Delivered (publish_events es t).1.world.sent e.destination e.payload)
      → In e (x ∷ es)
      → Delivered
          (continue out.0 (λ _. publish_events es) out.1).1.world.sent
          e.destination
          e.payload
  first_then es s x e (ok u, t) p h rest (inl q) =
      let known =
        publish_known-In (message_of x.destination x.payload) s
          (ap (λ (o : Result Unit × Session D). o.0) p) in
      let here : Delivered t.world.sent x.destination x.payload = (
        known.0,
        known.1,
        subst (λ (o : Result Unit × Session D). In known.0 o.1.world.sent) p known.2,
      ) in
      rw q (
        Delivered-Extends t.world.sent (publish_events es t).1.world.sent x.destination x.payload
          (publish_events-Published es t).extends here)
  first_then es s x e (ok u, t) p h rest (inr j) = rest t h j
  first_then es s x e (err y, t) p h rest j = absurd (cc)

  -- After a run of publishes that raised nothing the broker has every message.
  pub publish_events-Delivered :
      (es : List PendingEvent) (s : Session D)
      → (publish_events es s).0 ≡ ok tt
      → (e : PendingEvent) → In e es
      → Delivered (publish_events es s).1.world.sent e.destination e.payload
  unfolding publish_events publish_event ◌>>=◌
  publish_events-Delivered [] s h e i = absurd i
  publish_events-Delivered (x ∷ es) s h e i =
      first_then es s x e (publish_known (message_of x.destination x.payload) s) refl h
        (λ t h' j. publish_events-Delivered es t h' e j) i
