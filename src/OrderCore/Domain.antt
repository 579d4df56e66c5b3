-- ===== src/OrderCore/Domain.antt =====
-- order-core-service/app/domain: the order, its status, the verdict and the policy.
use profi_notifications.Prelude.{
  ℕ, ◌≡◌, refl, Bool, true, false, Option, none, some, Text, codes, text_eq, leb, if◌then◌else◌,
}
use profi_notifications.Prelude.Json.{ℤ}

pub data Source : Type 0 where
  profi : Source

-- `str(source)`
unfoldable pub source_value : Source → Text
source_value profi = codes "profi"

-- `Source(value)`, which raises `ValueError` on any other text.
unfoldable pub source_of : Text → Option Source
unfolding source_value text_eq
source_of t = if text_eq t (source_value profi) then some profi else none

pub data OrderStatus : Type 0 where
  assess_requested notify_requested no_notify failed : OrderStatus

-- `status.value`
unfoldable pub status_value : OrderStatus → Text
status_value assess_requested = codes "assess_requested"
status_value notify_requested = codes "notify_requested"
status_value no_notify = codes "no_notify"
status_value failed = codes "failed"

-- `OrderStatus(value)`
unfoldable pub status_of : Text → Option OrderStatus
unfolding status_value text_eq
status_of t =
    if text_eq t (status_value assess_requested)
    then some assess_requested
    else if text_eq t (status_value notify_requested)
    then some notify_requested
    else if text_eq t (status_value no_notify)
    then some no_notify
    else if text_eq t (status_value failed)
    then some failed
    else none

pub status_of-status_value : (s : OrderStatus) → status_of (status_value s) ≡ some s
unfolding status_of
status_of-status_value assess_requested = refl
status_of-status_value notify_requested = refl
status_of-status_value no_notify = refl
status_of-status_value failed = refl

pub status_value-injective : (s t : OrderStatus) → status_value s ≡ status_value t → s ≡ t
status_value-injective s t e = cc (status_of-status_value s, status_of-status_value t)

pub source_of-source_value : (s : Source) → source_of (source_value s) ≡ some s
unfolding source_of
source_of-source_value profi = refl

unfoldable pub can_apply_assessment : OrderStatus → Bool
can_apply_assessment assess_requested = true
can_apply_assessment _ = false

pub data ParseMode : Type 0 where
  html markdown_v2 markdown : ParseMode

pub record NotificationCommand : Type 0 where
  pub text : Text
  pub parse_mode : Option ParseMode
  pub disable_notification : Option Bool
  pub disable_web_page_preview : Option Bool
  pub message_thread_id : Option ℤ

-- The score lies between 0 and 100: `to_assessment_outcome` of the mapping makes the check that
-- `Field(ge=0, le=100)` makes on construction.
pub record AssessmentOutcome : Type 0 where
  pub order_id : Text
  pub suitability_score : ℕ
  pub notification : NotificationCommand

pub data DecisionReason : Type 0 where
  above_threshold below_threshold : DecisionReason

pub record Decision : Type 0 where
  pub notify : Bool
  pub reason : DecisionReason

unfoldable pub decide_notification : AssessmentOutcome → ℕ → Decision
decide_notification outcome threshold =
    if leb threshold outcome.suitability_score
    then record { notify = true; reason = above_threshold }
    else record { notify = false; reason = below_threshold }

-- The projection of a stored order that the domain reads.
pub record Order : Type 0 where
  pub source : Source
  pub external_id : Text
  pub status : OrderStatus
  pub suitability_score : Option ℕ
