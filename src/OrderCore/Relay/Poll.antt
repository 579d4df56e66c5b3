-- ===== src/OrderCore/Relay/Poll.antt =====
-- order-core-service/app/infrastructure/outbox/relay.py: one turn of the loop `_run_forever`.
use profi_notifications.OrderCore.Relay.{run_once}
use profi_notifications.OrderCore.Db.{Db}
use profi_notifications.OrderCore.Effects.{outbox_relay_error, World}
use profi_notifications.OrderCore.Dto.{err, ok, Result}
use profi_notifications.Prelude.{refl, ◌≡◌, ℕ, Bool, ltb, if◌then◌else◌, [], ◌∷◌, ◌++◌}

-- How long the loop sleeps after a turn: not at all, or for its interval.
pub data Pause : Type 0 where
  at_once interval : Pause

module _ {D : Type 0} where
  -- An error of the round is logged, and counts as a round that published nothing.
  unfoldable pub after_round : Result ℕ × World D → Pause × World D
  after_round (ok published, w) = (if ltb 0 published then at_once else interval, w)
  after_round (err e, w) = (interval, record w { log = w.log ++ outbox_relay_error ∷ [] })

unfoldable pub poll_once : (ℕ → Bool) → ℕ → ℕ → World Db → Pause × World Db
unfolding after_round
poll_once locked batch_size now w = after_round (run_once locked batch_size now w)

after_round_keeps :
    (out : Result ℕ × World Db)
    → ((after_round out).1.committed ≡ out.1.committed) × ((after_round out).1.sent ≡ out.1.sent)
unfolding after_round
after_round_keeps (ok n, w) = (refl, refl)
after_round_keeps (err e, w) = (refl, refl)

-- A turn does to the tables and the messages what its round does.
pub poll_keeps :
    (locked : ℕ → Bool) (batch_size now : ℕ) (w : World Db)
    → let w' = (poll_once locked batch_size now w).1 in
      let u = (run_once locked batch_size now w).1 in
      (w'.committed ≡ u.committed) × (w'.sent ≡ u.sent)
unfolding poll_once
poll_keeps locked batch_size now w = after_round_keeps (run_once locked batch_size now w)
