-- ===== src/OrderCore/Effects/Publish.antt =====
-- What a publish does, as far as the answers of the broker matter.
use profi_notifications.Prelude.{◌≡◌, ◌⊎◌, ◌++◌, [], ◌∷◌, arith}
use profi_notifications.OrderCore.Effects.{broker_error, err, ok, World, Message, publish_message}

module _ {D : Type 0} (m : Message) (w : World D) where
  -- A publish that returns has sent its message.
  pub sent-publish :
      (publish_message m w).0 ≡ ok tt → (publish_message m w).1.sent ≡ w.sent ++ m ∷ []
  unfolding publish_message
  sent-publish h = ground arith

  pub sent-publish_any :
      ((publish_message m w).1.sent ≡ w.sent) ⊎ ((publish_message m w).1.sent ≡ w.sent ++ m ∷ [])
  unfolding publish_message
  sent-publish_any = ground arith

  pub committed-publish : (publish_message m w).1.committed ≡ w.committed
  unfolding publish_message
  committed-publish = ground arith

  -- A publish raises nothing but the broker's error.
  pub publish_error :
      ((publish_message m w).0 ≡ ok tt) ⊎ ((publish_message m w).0 ≡ err broker_error)
  unfolding publish_message
  publish_error = ground arith
