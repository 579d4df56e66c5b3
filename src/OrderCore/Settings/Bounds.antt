-- ===== src/OrderCore/Settings/Bounds.antt =====
-- The bounds that settings keep.
use mathlib.Core.Option.{some-injective}
use mathlib.Core.Path.{subst}
use profi_notifications.Config.Fields.{bind_some, percent_field, positive_field}
use profi_notifications.Config.{Env, Readers}
use profi_notifications.Prelude.{codes, arith, some, ◌≡◌, ◌≤◌, ◌<◌}
use profi_notifications.OrderCore.Settings.{
  load_settings, codes, some, OutboxSettings, MessagingSettings, AssessmentSettings, load_outbox,
  load_messaging, load_assessment, Readers, Settings,
}

-- What the service relies on.
pub record IsUsable (s : Settings) : Type 0 where
  pub prefetch : 0 < s.messaging.prefetch
  pub threshold : s.assessment.notify_threshold ≤ 100
  pub interval : 0 < s.outbox.poll_interval_ms
  pub batch_size : 0 < s.outbox.batch_size

module _ (readers : Readers) (env : Env) where
  messaging_lem : (m : MessagingSettings) → load_messaging readers env ≡ some m → 0 < m.prefetch
  unfolding load_messaging
  messaging_lem m h =
      let (n, e, h1) = bind_some _ h in
      let (_, _, h2) = bind_some _ h1 in
      let (_, _, h3) = bind_some _ h2 in
      ground (
        arith,
        h3,
        positive_field readers.int env (codes "MESSAGING__PREFETCH") 10 n (omega arith) e,
      )

  assessment_lem :
      (a : AssessmentSettings) → load_assessment readers env ≡ some a → a.notify_threshold ≤ 100
  unfolding load_assessment
  assessment_lem a h =
      let (n, e, h1) = bind_some _ h in
      ground (
        arith,
        h1,
        percent_field readers.int env (codes "ASSESSMENT__NOTIFY_THRESHOLD") 0 n (omega arith) e,
      )

  outbox_lem :
      (o : OutboxSettings)
      → load_outbox readers env ≡ some o
      → (0 < o.poll_interval_ms) × (0 < o.batch_size)
  unfolding load_outbox
  outbox_lem o h =
      let (n, e, h1) = bind_some _ h in
      let (m, f, h2) = bind_some _ h1 in
      let (_, _, h3) = bind_some _ h2 in
      ground (
        arith,
        h3,
        positive_field readers.int env (codes "OUTBOX__POLL_INTERVAL_MS") 1000 n (omega arith) e,
        positive_field readers.int env (codes "OUTBOX__BATCH_SIZE") 100 m (omega arith) f,
      )

pub load_settings-IsUsable :
    (readers : Readers) (env : Env) (s : Settings) → load_settings readers env ≡ some s → IsUsable s
unfolding load_settings
load_settings-IsUsable readers env s h =
    let (_, _, h1) = bind_some _ h in
    let (_, _, h2) = bind_some _ h1 in
    let (m, em, h3) = bind_some _ h2 in
    let (a, ea, h4) = bind_some _ h3 in
    let (o, eo, h5) = bind_some _ h4 in
    let (interval, batch) = outbox_lem readers env o eo in
    subst IsUsable (some-injective _ _ h5) (record {
      prefetch = messaging_lem readers env m em;
      threshold = assessment_lem readers env a ea;
      interval = interval;
      batch_size = batch;
    })
