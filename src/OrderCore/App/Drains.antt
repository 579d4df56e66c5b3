-- ===== src/OrderCore/App/Drains.antt =====
-- The relay of an app that some environment configures.
use mathlib.Core.Option.{some-injective}
use mathlib.Core.Path.{subst}
use profi_notifications.OrderCore.Relay.Drained.{run_rounds, waiting_events, Answers}
use profi_notifications.Prelude.{sym, ◌<◌, ap, ℕ, ◌≡◌, ◌≤◌, some, arith, zero, suc}
use profi_notifications.Prelude.Json.{Fields}
use profi_notifications.Config.{Env, Readers}
use profi_notifications.Config.Fields.{bind_some}
use profi_notifications.OrderCore.App.{App, build_app, wiring_of}
use profi_notifications.OrderCore.Effects.{World}
use profi_notifications.OrderCore.Db.{Db}
use profi_notifications.OrderCore.Guard.{Parsed}
use profi_notifications.OrderCore.Settings.{Settings, load_settings}
use profi_notifications.OrderCore.Settings.Bounds.{load_settings-IsUsable}
use profi_notifications.OrderCore.System.{Reach, fresh_world, Wiring}
use profi_notifications.OrderCore.System.Drained.{relay_drains}
use profi_notifications.OrderCore.Wire.{AssessmentResultMessage, ParseResultMessage}

module _ (parse_batch : Fields → Parsed ParseResultMessage)
    (parse_verdict : Fields → Parsed AssessmentResultMessage) where
  wiring_lem :
      (s : Settings) (app : App)
      → build_app parse_batch parse_verdict s ≡ some app
      → app.wiring ≡ wiring_of parse_batch parse_verdict s
  unfolding build_app
  wiring_lem s app h =
      let (_, _, h1) = bind_some _ h in
      let (_, _, h2) = bind_some _ h1 in ap (λ a. a.wiring) (sym (some-injective _ _ h2))

  drains_by :
      (c : Wiring) (size rounds : ℕ) (clock : ℕ → ℕ) (w : World Db)
      → 0 < size
      → Reach c fresh_world w
      → Answers w
      → waiting_events w.committed ≤ rounds
      → waiting_events (run_rounds size clock rounds w).committed ≡ 0
  drains_by c zero rounds clock w p = absurd (omega (arith, p))
  drains_by c (suc limit) rounds clock w p = relay_drains c limit rounds clock w

  -- If the environment gives settings and the service is built from them, then in every state that
  -- it can reach from empty tables with the queues and limits that it got: if the database and the
  -- broker answer every call and no other relay holds a row, at least as many rounds of its relay
  -- as there are pending events leave none of them pending.
  pub app_drains :
      (readers : Readers) (env : Env) (s : Settings) (app : App)
      → load_settings readers env ≡ some s
      → build_app parse_batch parse_verdict s ≡ some app
      → (rounds : ℕ) (clock : ℕ → ℕ) (w : World Db) → Reach app.wiring fresh_world w
      → Answers w
      → waiting_events w.committed ≤ rounds
      → waiting_events (run_rounds app.wiring.batch_size clock rounds w).committed ≡ 0
  unfolding wiring_of
  app_drains readers env s app loaded built rounds clock w =
      let usable = load_settings-IsUsable readers env s loaded in
      drains_by app.wiring app.wiring.batch_size rounds clock w
        (subst (λ c. 0 < c.batch_size) (sym (wiring_lem s app built)) usable.batch_size)
