-- ===== src/Services/Topology.antt =====
-- The queues that the three services declare at one broker.
use mathlib.Core.Option.{some-injective}
use profi_notifications.Config.Fields.{bind_some}
use profi_notifications.OrderCore.Wire.{ParseResultMessage, AssessmentResultMessage}
use profi_notifications.OrderCore.Guard.{Parsed}
use profi_notifications.Prelude.Json.{Fields}
use profi_notifications.Prelude.Members.{Each-In, In, Each}
use profi_notifications.OrderCore.Topology.{build_dead_letter_queue as build_core_dlq}
use profi_notifications.Llm.Topology.{build_dead_letter_queue as build_llm_dlq}
use profi_notifications.Scheduler.App.{parse_requests_queue}
use mathlib.Core.Path.{ap, sym, subst}
use profi_notifications.Broker.{Queue, durable_queue}
use profi_notifications.Broker.Names.{text_eq-suffix}
use profi_notifications.OrderCore.App as CoreApp
use profi_notifications.OrderCore.Settings as CoreSettings
use profi_notifications.OrderCore.Topology.{build_parse_queue, build_assess_result_queue}
use profi_notifications.Llm.App as LlmApp
use profi_notifications.Llm.Settings as LlmSettings
use profi_notifications.Llm.Topology.{
  dlq_name, retry_name, build_input_queue, build_retry_queue, build_result_queue,
}
use profi_notifications.Scheduler.App as SchedulerApp
use profi_notifications.Scheduler.Settings as SchedulerSettings
use profi_notifications.Prelude.{
  ap, ◌∙◌, sym, some, false, text_eq-append_left, codes, text_eq_refl, [], arith, true, ◌∷◌, List,
  if◌then◌else◌, Bool, Text, ◌≡◌, not, any, text_eq, ◌&&◌, ◌++◌,
}

abbrev pub declared : CoreApp.App → LlmApp.App → SchedulerApp.App → List Queue
declared core llm scheduler =
    CoreApp.declared_queues core ++ (LlmApp.declared_queues llm ++ scheduler.at_startup)

abbrev is_fresh : Text → List Text → Bool
is_fresh name names = not (any (text_eq name) names)

-- `<name>.retry` is not `<name>.dlq`.
retry_apart : (name : Text) → text_eq (retry_name name) (dlq_name name) ≡ false
unfolding text_eq
retry_apart name = text_eq-append_left name (codes ".retry") (codes ".dlq")

module _ (core : CoreSettings.Settings) (llm : LlmSettings.Settings)
    (scheduler : SchedulerSettings.Settings) where
  abbrev input : Text
  input = llm.messaging.input_queue

  -- the names of the queues without arguments, besides `<name>.dlq`
  abbrev simple_names : List Text
  simple_names =
      core.messaging.assess_result_queue ∷ core.messaging.dlq ∷ llm.messaging.result_queue
      ∷ scheduler.scheduler.parse_queue ∷ []

  -- The three queues with arguments have names of their own.
  unfoldable pub names_apart : Bool
  names_apart =
      is_fresh core.messaging.parse_queue (input ∷ retry_name input ∷ dlq_name input ∷ simple_names)
      && is_fresh input simple_names
      && is_fresh (retry_name input) simple_names

  abbrev expected : Text → Queue
  expected name =
      if text_eq core.messaging.parse_queue name
      then build_parse_queue name core.messaging.dlq
      else if text_eq input name
      then build_input_queue name
      else if text_eq (retry_name input) name
      then build_retry_queue input llm.messaging.retry_ttl_ms
      else durable_queue name

  abbrev AsExpected : Queue → Type 0
  AsExpected q = q ≡ expected q.name

  -- What the settings say of the queues, in the order of the declarations.
  abbrev queues : List Queue
  queues =
      build_parse_queue core.messaging.parse_queue core.messaging.dlq
      ∷ build_assess_result_queue core.messaging.assess_result_queue
      ∷ build_core_dlq core.messaging.dlq
      ∷ build_input_queue input
      ∷ build_llm_dlq input
      ∷ build_retry_queue input llm.messaging.retry_ttl_ms
      ∷ build_result_queue llm.messaging.result_queue
      ∷ parse_requests_queue scheduler.scheduler.parse_queue
      ∷ []

  queues_lem : names_apart ≡ true → Each AsExpected queues
  unfolding names_apart build_parse_queue build_assess_result_queue build_result_queue
      build_input_queue build_retry_queue build_core_dlq build_llm_dlq parse_requests_queue
  queues_lem h = ground (
    arith,
    h,
    text_eq_refl core.messaging.parse_queue,
    text_eq_refl input,
    text_eq_refl (retry_name input),
    text_eq-suffix input (codes ".dlq") (ground arith),
    text_eq-suffix input (codes ".retry") (ground arith),
    retry_apart input,
  )

  module _ (parse_batch : Fields → Parsed ParseResultMessage)
      (parse_verdict : Fields → Parsed AssessmentResultMessage) where
    declared_lem :
        (c : CoreApp.App) (l : LlmApp.App) (d : SchedulerApp.App)
        → CoreApp.build_app parse_batch parse_verdict core ≡ some c
        → LlmApp.build_app llm ≡ some l
        → SchedulerApp.build_app scheduler ≡ some d
        → declared c l d ≡ queues
    unfolding CoreApp.build_app LlmApp.build_app SchedulerApp.build_app CoreApp.declared_queues
        LlmApp.declared_queues
    declared_lem c l d f g h =
        let (_, _, f1) = bind_some _ f in
        let (_, _, f2) = bind_some _ f1 in
        let (_, _, g1) = bind_some _ g in
        let (_, _, h1) = bind_some _ h in
        rw (sym (some-injective _ _ f2), sym (some-injective _ _ g1), sym (some-injective _ _ h1))

    -- If the names of the three queues with arguments differ from the names of the other queues that
    -- the three services declare, and from each other, then no two declarations of one name differ,
    -- whatever the settings say besides.
    pub declarations_agree :
        (c : CoreApp.App) (l : LlmApp.App) (d : SchedulerApp.App)
        → CoreApp.build_app parse_batch parse_verdict core ≡ some c
        → LlmApp.build_app llm ≡ some l
        → SchedulerApp.build_app scheduler ≡ some d
        → names_apart ≡ true
        → (p q : Queue) → In p (declared c l d)
        → In q (declared c l d)
        → p.name ≡ q.name
        → p ≡ q
    declarations_agree c l d f g h apart p q i j same =
        let known = Each-In AsExpected queues (queues_lem apart) in
        let e = declared_lem c l d f g h in
        known p (subst (In p) e i) ∙ ap expected same ∙ sym (known q (subst (In q) e j))
