-- ===== src/OrderCore/System/Drained.antt =====
-- The relay in the states that order-core-service can reach.
use profi_notifications.OrderCore.Relay.Atomic.{round}
use profi_notifications.OrderCore.Dto.{err, ok, Result}
use profi_notifications.OrderCore.Relay.Poll.{interval, after_round, poll_once}
use profi_notifications.OrderCore.Relay.{claimed, pending_event, run_once}
use profi_notifications.OrderCore.Db.{OutboxRow, Db}
use profi_notifications.OrderCore.System.{
  [], List, poll_once, fresh_world, Reach, Db, World, Wiring,
}
use profi_notifications.Prelude.{refl, ◌∷◌, [], map, length, List, zero, arith, ◌≡◌, suc, ◌≤◌, ℕ}
use profi_notifications.OrderCore.Relay.Drained.{
  claimed_empty, run_rounds, waiting_events, Answers, round_progress, unlocked, run_once_total,
}
use profi_notifications.OrderCore.System.Sound.{IsSound, relay-IsSound, Reach-IsSound}

drained_from :
    (limit rounds : ℕ) (clock : ℕ → ℕ) (w : World Db)
    → IsSound w
    → Answers w
    → waiting_events w.committed ≤ rounds
    → waiting_events (run_rounds (suc limit) clock rounds w).committed ≡ 0
drained_from limit zero clock w h a n = omega (arith, n)
drained_from limit (suc rounds) clock w h a n =
    drained_from limit rounds clock (run_once unlocked (suc limit) (clock rounds) w).1
      (relay-IsSound unlocked (suc limit) (clock rounds) w h)
      (run_once_total (suc limit) (clock rounds) w h.tracked a).1
      (omega (arith, n, round_progress limit (clock rounds) w h.tracked a))

-- In every state that the service can reach from empty tables, if the database and the broker
-- answer every call and no other relay holds a row, then at least as many rounds of the relay
-- as there are pending events leave none of them pending, at whatever times they are made and
-- whatever the size of a round is, if it is not 0.
pub relay_drains :
    (c : Wiring) (limit rounds : ℕ) (clock : ℕ → ℕ) (w : World Db)
    → Reach c fresh_world w
    → Answers w
    → waiting_events w.committed ≤ rounds
    → waiting_events (run_rounds (suc limit) clock rounds w).committed ≡ 0
relay_drains c limit rounds clock w r a n =
    drained_from limit rounds clock w (Reach-IsSound c w r) a n

map_empty : (rows : List OutboxRow) → length (map pending_event rows) ≡ 0 → rows ≡ []
map_empty [] h = refl
map_empty (r ∷ rows) h = absurd (omega (arith, h))

paused_empty :
    (limit now : ℕ) (w : World Db) (out : Result ℕ × World Db)
    → out.0 ≡ ok (length (round unlocked (suc limit) now w.committed))
    → (after_round out).0 ≡ interval
    → waiting_events w.committed ≡ 0
unfolding after_round
paused_empty limit now w (ok n, u) e p =
    claimed_empty limit w.committed
      (map_empty (claimed unlocked (suc limit) w.committed) (ground (arith, e, p)))
paused_empty limit now w (err x, u) e p = cc

-- In every state that the service can reach from empty tables, if the database and the broker answer
-- every call, no other relay holds a row and a round may claim a row, then the loop of the relay
-- sleeps for its interval only if no event was pending.
pub poll_pauses_empty :
    (c : Wiring) (limit now : ℕ) (w : World Db)
    → Reach c fresh_world w
    → Answers w
    → (poll_once unlocked (suc limit) now w).0 ≡ interval
    → waiting_events w.committed ≡ 0
unfolding poll_once
poll_pauses_empty c limit now w r a p =
    paused_empty limit now w (run_once unlocked (suc limit) now w)
      (run_once_total (suc limit) now w (Reach-IsSound c w r).tracked a).0 p
