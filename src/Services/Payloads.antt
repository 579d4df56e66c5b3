-- ===== src/Services/Payloads.antt =====
-- order-core-service/app/infrastructure/messaging/schemas.py, lines 80 to 95: which payload stands for
-- which message of assess.results. `model_validate` is pydantic's; what it is relied on for is that
-- it reads such a payload as that message.
use profi_notifications.Prelude.{Option, none, some, Text, codes, text_eq, ◌≡◌, if◌then◌else◌}
use profi_notifications.Prelude.Json.{Json, Fields, end, field, str, int, bool, obj}
use profi_notifications.OrderCore.Wire.{
  AssessmentResultMessage, NotificationMessage, parse_mode_value,
}
use profi_notifications.OrderCore.Guard.{Parsed, valid}

-- The value of a key of an object whose keys differ.
abbrev pub lookup : Text → Fields → Option Json
lookup key end = none
lookup key (field k j rest) = let later = lookup key rest in if text_eq key k then some j else later

-- A field with an alias that may be left out, under its alias and under its name
-- (`populate_by_name`).
abbrev pub Gives : {A : Type 0} → (A → Json) → Text → Text → Fields → Option A → Type 0
Gives enc alias name raw none = (lookup alias raw ≡ none) × (lookup name raw ≡ none)
Gives enc alias name raw (some a) = lookup alias raw ≡ some (enc a)

pub record SpellsNotification (raw : Fields) (m : NotificationMessage) : Type 0 where
  pub text : lookup (codes "text") raw ≡ some (str m.text)
  pub parse_mode :
      Gives
        (λ p. str (parse_mode_value p))
        (codes "parseMode")
        (codes "parse_mode")
        raw
        m.parse_mode
  pub disable_notification :
      Gives bool
        (codes "disableNotification")
        (codes "disable_notification")
        raw
        m.disable_notification
  pub disable_web_page_preview :
      Gives bool
        (codes "disableWebPagePreview")
        (codes "disable_web_page_preview")
        raw
        m.disable_web_page_preview
  pub message_thread_id :
      Gives int (codes "messageThreadId") (codes "message_thread_id") raw m.message_thread_id

pub record Spells (raw : Fields) (m : AssessmentResultMessage) : Type 0 where
  pub order_id : lookup (codes "order_id") raw ≡ some (str m.order_id)
  pub suitability_score : lookup (codes "suitability_score") raw ≡ some (int m.suitability_score)
  pub inner : Fields
  pub notification : lookup (codes "notification") raw ≡ some (obj inner)
  pub spelled : SpellsNotification inner m.notification

-- What `model_validate` of AssessmentResultMessage is relied on for.
pub record ReadsVerdicts (parse : Fields → Parsed AssessmentResultMessage) : Type 0 where
  pub reads : (raw : Fields) (m : AssessmentResultMessage) → Spells raw m → parse raw ≡ valid m
